-- ===== src/Crypto/Ed448/Accepts.antt =====
-- Which signatures `verify` accepts.
use mathlib.Core.Bool.{false≢true}
use mathlib.Core.Option.{some-injective, none-ne-some}
use mathlib.Core.Path.{subst}
use fingerprint_bridge.Base.{
  ℕ, ◌≡◌, ◌≢◌, ◌↔◌, refl, sym, List, Bool, true, false, not, ◌||◌, Option, none, some, ◌==◌,
  if◌then◌else◌, length, arith,
}
use fingerprint_bridge.Crypto.Ed448.{Ed448Crate, verify_key, verify}

key_test :
    (neutral subgroup : ℕ) (b : Bool)
    → ((if not (neutral == 0) || subgroup == 0 then false else b) ≡ true)
      ↔ (((neutral ≡ 0) × (subgroup ≢ 0)) × (b ≡ true))
key_test neutral subgroup b = ground arith

size_test :
    (k s : ℕ) (b : Bool)
    → ((if not (k == 57) || not (s == 114) then false else b) ≡ true)
      ↔ ((k ≡ 57) × (s ≡ 114) × (b ≡ true))
size_test k s b = ground arith

decode_test {ℓ} :
    {A : Type ℓ} (o : Option A) (f : A → Bool)
    → (elim o [ none ↦ false | some key ↦ f key ] ≡ true)
      ↔ ((key : A) × (o ≡ some key) × (f key ≡ true))
decode_test none f = (λ h. absurd (false≢true h), λ (key, e, _). absurd (none-ne-some key e))
decode_test (some key) f = (
  λ h. (key, refl, h),
  λ (other, e, h). subst (λ k. f k ≡ true) (sym (some-injective key other e)) h,
)

module _ (crate : Ed448Crate) where
  -- A key that the curve's equation can be trusted with.
  abbrev pub IsSound : crate.PublicKey → Type 0
  IsSound key = (crate.isneutral key ≡ 0) × (crate.is_in_subgroup key ≢ 0)

  verify_key_iff :
      (key : crate.PublicKey) (message signature : List ℕ)
      → (verify_key crate key message signature ≡ true)
        ↔ (IsSound key × (crate.verify_raw key signature message ≡ true))
  unfolding verify_key
  verify_key_iff key message signature =
      key_test (crate.isneutral key) (crate.is_in_subgroup key)
        (crate.verify_raw key signature message)

  -- A signature is accepted exactly where the key has 57 bytes and the signature 114, the key decodes to
  -- one that is not neutral and lies in the subgroup, and the signature verifies under that key.
  pub verify_iff :
      (public_key message signature : List ℕ)
      → (verify crate public_key message signature ≡ true) ↔ (
          (length public_key ≡ 57)
          × (length signature ≡ 114)
          × (key : crate.PublicKey) × (crate.decode public_key ≡ some key)
          × IsSound key
          × (crate.verify_raw key signature message ≡ true))
  unfolding verify
  verify_iff public_key message signature =
      let (first, second) =
        size_test (length public_key) (length signature) (elim (crate.decode public_key) [
          | none ↦ false
          | some key ↦ verify_key crate key message signature
        ]) in
      let (decodes, converse) =
        decode_test (crate.decode public_key) (λ key. verify_key crate key message signature) in
      (
        (λ h.
            let (k, s, e) = first h in
            let (key, decoded, sound) = decodes e in
            let (trusted, raw) = (verify_key_iff key message signature).0 sound in
            (k, s, key, decoded, trusted, raw)),
        λ (k, s, key, decoded, trusted, raw). second (
          k,
          s,
          converse (key, decoded, (verify_key_iff key message signature).1 (trusted, raw)),
        ),
      )
