-- ===== src/Fingerprint/Json/KeySet.antt =====
-- `BTreeSet` of strings, which Rust orders by their bytes.
use mathlib.Core.Path.{subst}
use mathlib.Core.Bool.{false≢true}
use fingerprint_bridge.Base.{
  ℕ, ◌≡◌, refl, sym, ap, ◌∙◌, inl, inr, List, [], ◌∷◌, Bool, true, false, ◌&&◌, ◌||◌, ◌==◌, ltb,
  if◌then◌else◌, Bool-cases, All, arith,
}
use fingerprint_bridge.Base.Bytes.{bytes_eq, bytes_eq_iff}

unfoldable pub text_lt : List ℕ → List ℕ → Bool
text_lt xs [] = false
text_lt [] (y ∷ ys) = true
text_lt (x ∷ xs) (y ∷ ys) = ltb x y || x == y && text_lt xs ys

unfoldable pub insert_key : List ℕ → List (List ℕ) → List (List ℕ)
insert_key k [] = k ∷ []
insert_key k (x ∷ xs) =
    let further = x ∷ insert_key k xs in
    if bytes_eq k x then x ∷ xs else if text_lt k x then k ∷ x ∷ xs else further

-- `collect`
unfoldable pub key_set : List (List ℕ) → List (List ℕ)
key_set [] = []
key_set (k ∷ ks) = insert_key k (key_set ks)

unfoldable pub has : List ℕ → List (List ℕ) → Bool
has k [] = false
has k (x ∷ xs) = bytes_eq k x || has k xs

has-insert_key :
    (q k : List ℕ) (xs : List (List ℕ)) → has q (insert_key k xs) ≡ (bytes_eq q k || has q xs)
unfolding has insert_key
has-insert_key q k [] = refl
has-insert_key q k (x ∷ xs) = elim (Bool-cases (bytes_eq k x)) [
  | inl same ↦
      let both : bytes_eq q k ≡ bytes_eq q x =
        ap (λ (l : List ℕ). bytes_eq q l) ((bytes_eq_iff k x).0 same) in
      rw same (ground (arith, both))
  | inr other ↦ rw other (elim (Bool-cases (text_lt k x)) [
    | inl before ↦ rw before refl
    | inr behind ↦ rw behind (ground (arith, has-insert_key q k xs))
  ])
]

-- A set has the keys that it was made of.
pub has-key_set : (q : List ℕ) (ks : List (List ℕ)) → has q (key_set ks) ≡ has q ks
unfolding has key_set
has-key_set q [] = refl
has-key_set q (k ∷ ks) =
    has-insert_key q k (key_set ks) ∙ ap (λ (b : Bool). bytes_eq q k || b) (has-key_set q ks)

pub All-has {κ} :
    (P : List ℕ → Type κ) (ks : List (List ℕ)) → All P ks → (k : List ℕ) → has k ks ≡ true → P k
unfolding has
All-has P [] h k e = absurd (false≢true e)
All-has P (x ∷ ks) (first, rest) k e = elim (Bool-cases (bytes_eq k x)) [
  | inl same ↦ subst P (sym ((bytes_eq_iff k x).0 same)) first
  | inr other ↦ All-has P ks rest k (ap (λ (b : Bool). b || has k ks) (sym other) ∙ e)
]

or_true : (a : Bool) → (a || true) ≡ true
or_true true = refl
or_true false = refl

pub has-All {κ} :
    (P : List ℕ → Type κ) (ks : List (List ℕ)) → ((k : List ℕ) → has k ks ≡ true → P k) → All P ks
unfolding has
has-All P [] h = tt
has-All P (x ∷ ks) h = (
  h x (ap (λ (b : Bool). b || has x ks) ((bytes_eq_iff x x).1 refl)),
  has-All P ks (λ k e. h k (ap (λ (b : Bool). bytes_eq k x || b) e ∙ or_true (bytes_eq k x))),
)
