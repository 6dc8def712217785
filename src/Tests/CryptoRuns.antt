-- ===== src/Tests/CryptoRuns.antt =====
-- The backend's callbacks.
use fingerprint_bridge.Base.{
  ℕ, ◌≡◌, ◌↔◌, List, [], ◌∷◌, true, Option, some, ◌==◌, length, replicate,
}
use fingerprint_bridge.Crypto.X448.{x448}
use fingerprint_bridge.Crypto.X448.Clears.{Outcome, x448-Outcome}
use fingerprint_bridge.Crypto.Ed448.{Ed448Crate, verify}
use fingerprint_bridge.Crypto.Ed448.Accepts.{IsSound, verify_iff}

-- A product that is the peer's point.
abbrev second : List ℕ → List ℕ → List ℕ
second point scalar = point

abbrev zeros : List ℕ
zeros = replicate 56 0

x448-Outcome_example :
    Outcome second
      (some zeros)
      (some (5 ∷ []))
      (some zeros)
      (x448 second (some zeros) (some (5 ∷ [])) (some zeros))
x448-Outcome_example = x448-Outcome second (some zeros) (some (5 ∷ [])) (some zeros)

-- Keys are their bytes, and each is sound.
abbrev trusting : Ed448Crate
trusting = record {
  PublicKey = List ℕ;
  decode = λ bytes. some bytes;
  isneutral = λ key. 0;
  is_in_subgroup = λ key. 1;
  verify_raw = λ key signature message. length message == 1;
}

verify_iff_example : (verify trusting (replicate 57 1) (7 ∷ []) (replicate 114 2) ≡ true) ↔ (
    (length (replicate {A = ℕ} 57 1) ≡ 57)
    × (length (replicate {A = ℕ} 114 2) ≡ 114)
    × (key : List ℕ) × (Option.some (replicate 57 1) ≡ some key)
    × IsSound trusting key
    × ((length {A = ℕ} (7 ∷ []) == 1) ≡ true))
verify_iff_example = verify_iff trusting (replicate 57 1) (7 ∷ []) (replicate 114 2)
