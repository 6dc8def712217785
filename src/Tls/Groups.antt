-- ===== src/Tls/Groups.antt =====
-- `group` and `share` of src/tls.rs.
use fingerprint_bridge.Base.{ℕ, List, [], ◌∷◌, ◌++◌, Bool, Option, none, some, ◌==◌, if◌then◌else◌}
use fingerprint_bridge.Base.Bytes.{text}

-- The arms of a `match id`, whose patterns are numbers.
abbrev pub match_id {ℓ} : {A : Type ℓ} → ℕ → List (ℕ × A) → Option A
match_id id [] = none
match_id id ((k, a) ∷ arms) = if id == k then some a else match_id id arms

-- Arms under `#[cfg(feature = "patched-tls")]`.
abbrev pub feature_arms {ℓ} : {A : Type ℓ} → Bool → List (ℕ × A) → List (ℕ × A)
feature_arms patched arms = if patched then arms else []

unfoldable pub group : Bool → ℕ → Option (List ℕ)
group patched id = match_id id (
    feature_arms patched ((10, text "sect283r1") ∷ [])
    ++ ((23, text "P-256") ∷ (24, text "P-384") ∷ (25, text "P-521") ∷ (29, text "X25519") ∷ [])
    ++ feature_arms patched ((30, text "X448") ∷ [])
    ++ ((4588, text "X25519MLKEM768") ∷ [])
    ++ feature_arms patched
        ((4587, text "SecP256r1MLKEM768") ∷ (4589, text "SecP384r1MLKEM1024") ∷ [])
    ++ ((25497, text "X25519Kyber768Draft00")
        ∷ (256, text "ffdhe2048")
        ∷ (257, text "ffdhe3072")
        ∷ [])
    ++ feature_arms patched
        ((258, text "ffdhe4096") ∷ (259, text "ffdhe6144") ∷ (260, text "ffdhe8192") ∷ []))

pub data KeyShare : Type 0 where
  p256 p384 p521 x25519 x25519_mlkem768 x25519_kyber768_draft00 ffdhe2048 ffdhe3072 : KeyShare

-- Without the feature.
unfoldable pub share : ℕ → Option KeyShare
share id = match_id id (
    (23, p256)
    ∷ (24, p384)
    ∷ (25, p521)
    ∷ (29, x25519)
    ∷ (4588, x25519_mlkem768)
    ∷ (25497, x25519_kyber768_draft00)
    ∷ (256, ffdhe2048)
    ∷ (257, ffdhe3072)
    ∷ [])
