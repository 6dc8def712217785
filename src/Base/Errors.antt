-- ===== src/Base/Errors.antt =====
-- Fallible code: `anyhow::Result`, with the text of `ensure!` and `bail!` as its error.
use Prim.Native.String.{String}
use mathlib.Core.Path.{◌≡◌, refl}
use mathlib.Core.Logic.{◌⊎◌, inl, inr}
use mathlib.Core.Bool.{Bool, true, false}
use fingerprint_bridge.Base.Tests.{if◌then◌else◌}

-- Which branch of a test gave a value.
pub if-cases {ℓ} :
    {A : Type ℓ} (test : Bool) {a b x : A}
    → (if test then a else b) ≡ x
    → ((test ≡ true) × (a ≡ x)) ⊎ ((test ≡ false) × (b ≡ x))
if-cases true h = inl (refl, h)
if-cases false h = inr (refl, h)

pub data Result {ℓ} (A : Type ℓ) : Type ℓ where
  ok : A → Result A
  err : String → Result A

-- `ensure!(test, message)`
abbrev pub ensure : Bool → String → Result (Unit {0})
ensure test message = if test then ok tt else err message

-- `?` in front of the rest of a body.
module _ {ℓ κ} {A : Type ℓ} {B : Type κ} where
  infixl 5 ◌>>=◌
  abbrev pub ◌>>=◌ : Result A → (A → Result B) → Result B
  err message >>= rest = err message
  ok value >>= rest = rest value

module _ {κ} {B : Type κ} where
  infixl 5 ◌>>◌
  abbrev pub ◌>>◌ : Result (Unit {0}) → Result B → Result B
  checked >> rest = checked >>= λ done. rest

module _ {ℓ κ} {A : Type ℓ} {B : Type κ} where
  -- The value that a successful first part hands on.
  pub >>=-eq-ok :
      (first : Result A) (rest : A → Result B) {result : B}
      → (first >>= rest) ≡ ok result
      → (value : A) × (first ≡ ok value) × (rest value ≡ ok result)
  >>=-eq-ok (err message) rest failed = cc failed
  >>=-eq-ok (ok value) rest done = (value, refl, done)

pub Result-cases {ℓ} :
    {A : Type ℓ} (r : Result A) → ((a : A) × (r ≡ ok a)) ⊎ ((e : String) × (r ≡ err e))
Result-cases (ok a) = inl (a, refl)
Result-cases (err e) = inr (e, refl)

pub ensure-eq-ok : (b : Bool) (e : String) {u : Unit {0}} → ensure b e ≡ ok u → b ≡ true
ensure-eq-ok true e h = refl
ensure-eq-ok false e h = cc

pub ok-injective {ℓ} : {A : Type ℓ} {a b : A} → ok a ≡ ok b → a ≡ b
ok-injective h = cc h
