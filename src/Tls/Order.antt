-- ===== src/Tls/Order.antt =====
-- `BACKEND_EXTENSIONS` and `extension_order` of src/tls.rs.
pub mod Permutation
use fingerprint_bridge.Base.{ℕ, List, [], ◌∷◌, ◌++◌, Bool, not, ◌&&◌, if◌then◌else◌}
use fingerprint_bridge.Std.Ascii.{elem}

-- `#[cfg(feature = "patched-tls")]` in front of an entry of a table.
abbrev pub with_feature : Bool → ℕ → List ℕ → List ℕ
with_feature patched id rest = if patched then id ∷ rest else rest

unfoldable pub backend_extensions : Bool → List ℕ
backend_extensions patched =
    0
    ∷ 65037
    ∷ 23
    ∷ with_feature patched 22 (
        65281
        ∷ 10
        ∷ 11
        ∷ 35
        ∷ 16
        ∷ 5
        ∷ with_feature patched 17 (
            13
            ∷ with_feature patched 50 (
                13172 ∷ 18 ∷ 30032 ∷ 14 ∷ 51 ∷ 45 ∷ 42 ∷ 43 ∷ 44 ∷ 57 ∷ 65445 ∷ 27 ∷ 34 ∷ 17613
                ∷ 17513 ∷ 47 ∷ 35387 ∷ 51764 ∷ 28 ∷ [])))

-- The loop, over a table of extensions.
unfoldable pub order_loop : List ℕ → List ℕ → List ℕ → List ℕ
order_loop table [] order = order
order_loop table (id ∷ ids) order =
    order_loop table ids (if elem id table && not (elem id order) then order ++ id ∷ [] else order)

unfoldable pub extension_order : Bool → List ℕ → List ℕ
extension_order patched incoming =
    order_loop (backend_extensions patched) (incoming ++ backend_extensions patched) []
