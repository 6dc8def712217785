-- ===== src/Crypto/X448.antt =====
-- The callback `x448` of src/crypto_x448.rs. A pointer is `none` where it is null, and otherwise the
-- bytes behind it; `multiply peer scalar` is `crrl::x448::x448`.
pub mod Clears
use fingerprint_bridge.Base.{
  ℕ, List, [], ◌∷◌, Option, none, some, bit_or, ◌==◌, if◌then◌else◌, replicate,
}

-- `iter().fold(0u8, |acc, byte| acc | byte)`
unfoldable pub fold_or : ℕ → List ℕ → ℕ
fold_or acc [] = acc
fold_or acc (byte ∷ bytes) = fold_or (bit_or acc byte) bytes

module _ (multiply : List ℕ → List ℕ → List ℕ) where
  -- What is returned, and what the output buffer holds then.
  unfoldable pub x448 : Option (List ℕ) → Option (List ℕ) → Option (List ℕ) → ℕ × Option (List ℕ)
  x448 none private_key peer = (0, none)
  x448 (some out) none peer = (0, some (replicate 56 0))
  x448 (some out) (some scalar) none = (0, some (replicate 56 0))
  x448 (some out) (some scalar) (some point) =
      let secret = multiply point scalar in
      if fold_or 0 secret == 0 then (0, some (replicate 56 0)) else (1, some secret)
