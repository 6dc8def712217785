-- ===== src/Crypto/X448/Clears.antt =====
-- The callback exposes a secret only where it succeeds.
use mathlib.Core.Path.{subst}
use fingerprint_bridge.Base.{
  ℕ, ◌≡◌, refl, ◌⊎◌, inl, inr, List, [], ◌∷◌, true, Option, none, some, bit_or, ◌==◌, ==_iff, All,
  replicate, Bool-cases, arith,
}
use fingerprint_bridge.Base.Bits.{bit_or_ge}
use fingerprint_bridge.Crypto.X448.{fold_or, x448}

abbrev pub IsZero : List ℕ → Type 0
IsZero = All (λ c. c ≡ 0)

fold_or-IsZero : (acc : ℕ) (bytes : List ℕ) → fold_or acc bytes ≡ 0 → (acc ≡ 0) × IsZero bytes
unfolding fold_or
fold_or-IsZero acc [] h = (h, tt)
fold_or-IsZero acc (byte ∷ bytes) h =
    let (first, rest) = fold_or-IsZero (bit_or acc byte) bytes h in
    (omega (arith, bit_or_ge acc byte, first), (omega (arith, bit_or_ge acc byte, first), rest))

IsZero-fold_or : (bytes : List ℕ) → IsZero bytes → fold_or 0 bytes ≡ 0
unfolding fold_or
IsZero-fold_or [] h = refl
IsZero-fold_or (byte ∷ bytes) h = rw h.0 (IsZero-fold_or bytes h.1)

-- The callback returns 0 and leaves a null buffer, or one of 56 zeros, alone; or it returns 1, both
-- inputs are there, and the buffer holds their product, which is not all zeros. With both inputs it
-- returns 0 only where the product is all zeros.
abbrev pub Outcome :
    (List ℕ → List ℕ → List ℕ)
    → Option (List ℕ)
    → Option (List ℕ)
    → Option (List ℕ)
    → ℕ × Option (List ℕ)
    → Type 0
Outcome multiply out private_key peer (code, left) =
    ((code ≡ 0)
      × ((out ≡ none) × (left ≡ none) ⊎ (left ≡ some (replicate 56 0)))
      × ((o k p : List ℕ)
          → out ≡ some o
          → private_key ≡ some k
          → peer ≡ some p
          → IsZero (multiply p k)))
    ⊎ ((k : List ℕ) × (p : List ℕ) × (code ≡ 1)
        × (private_key ≡ some k)
        × (peer ≡ some p)
        × (left ≡ some (multiply p k))
        × ¬ IsZero (multiply p k))

-- On any pointers the callback ends in one of two ways. It returns 0 and the output is a null pointer
-- or holds 56 zeros, and where no pointer is null the product was all zeros; or it returns 1, no input
-- is null, and the output holds the product, which is not all zeros.
pub x448-Outcome :
    (multiply : List ℕ → List ℕ → List ℕ) (out private_key peer : Option (List ℕ))
    → Outcome multiply out private_key peer (x448 multiply out private_key peer)
unfolding x448
x448-Outcome multiply none private_key peer = inl (refl, inl (refl, refl), λ o k p a b c. cc a)
x448-Outcome multiply (some out) none peer = inl (refl, inr refl, λ o k p a b c. cc b)
x448-Outcome multiply (some out) (some scalar) none = inl (refl, inr refl, λ o k p a b c. cc c)
x448-Outcome multiply (some out) (some scalar) (some point) =
    elim (Bool-cases (fold_or 0 (multiply point scalar) == 0)) [
      | inl weak ↦ rw weak (
          inl (
            refl,
            inr refl,
            λ o k p a b c.
                let same : multiply point scalar ≡ multiply p k = cc (b, c) in
                subst IsZero same
                  (fold_or-IsZero 0 (multiply point scalar)
                    ((==_iff (fold_or 0 (multiply point scalar)) 0).0 weak)).1,
          ))
      | inr strong ↦ rw strong (
          inr (
            scalar,
            point,
            refl,
            refl,
            refl,
            refl,
            λ z.
                let zero_test : (fold_or 0 (multiply point scalar) == 0) ≡ true =
                  (==_iff (fold_or 0 (multiply point scalar)) 0).1
                    (IsZero-fold_or (multiply point scalar) z) in
                cc (strong, zero_test),
          ))
    ]
