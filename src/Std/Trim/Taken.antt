-- ===== src/Std/Trim/Taken.antt =====
-- What `trim_start` and `trim_end` take off stands at the two ends of the text.
use mathlib.Core.List.{reverse-append, reverse-reverse}
use fingerprint_bridge.Base.{
  ℕ, ◌≡◌, refl, sym, ap, ◌∙◌, inl, inr, List, [], ◌∷◌, ◌++◌, Bool, reverse, Bool-cases,
}
use fingerprint_bridge.Std.Trim.{
  trim_by, trim_start, trim_end, is_space, two_byte_space, three_byte_space,
}

module _ (one : ℕ → Bool) (two : ℕ → ℕ → Bool) (three : ℕ → ℕ → ℕ → Bool) where
  trim_by-Taken : (s : List ℕ) → (lead : List ℕ) × (lead ++ trim_by one two three s ≡ s)
  unfolding trim_by
  trim_by-Taken [] = ([], refl)
  trim_by-Taken (a ∷ []) = elim (Bool-cases (one a)) [
    | inl blank ↦ rw blank (a ∷ [], refl)
    | inr solid ↦ rw solid ([], refl)
  ]
  trim_by-Taken (a ∷ b ∷ []) =
      let (lead, e) = trim_by-Taken (b ∷ []) in
      elim (Bool-cases (one a)) [
        | inl blank ↦ rw blank (a ∷ lead, ap (λ (l : List ℕ). a ∷ l) e)
        | inr solid ↦ elim (Bool-cases (two a b)) [
          | inl blank ↦ rw (solid, blank) (a ∷ b ∷ [], refl)
          | inr other ↦ rw (solid, other) ([], refl)
        ]
      ]
  trim_by-Taken (a ∷ b ∷ c ∷ s) =
      let (lead, e) = trim_by-Taken (b ∷ c ∷ s) in
      let (lead₂, e₂) = trim_by-Taken (c ∷ s) in
      let (lead₃, e₃) = trim_by-Taken s in
      elim (Bool-cases (one a)) [
        | inl blank ↦ rw blank (a ∷ lead, ap (λ (l : List ℕ). a ∷ l) e)
        | inr solid ↦ elim (Bool-cases (two a b)) [
          | inl blank ↦ rw (solid, blank) (a ∷ b ∷ lead₂, ap (λ (l : List ℕ). a ∷ b ∷ l) e₂)
          | inr other ↦ elim (Bool-cases (three a b c)) [
            | inl blank ↦
                rw (solid, other, blank) (a ∷ b ∷ c ∷ lead₃, ap (λ (l : List ℕ). a ∷ b ∷ c ∷ l) e₃)
            | inr none_of ↦ rw (solid, other, none_of) ([], refl)
          ]
        ]
      ]

pub trim_start-Taken : (s : List ℕ) → (lead : List ℕ) × (lead ++ trim_start s ≡ s)
unfolding trim_start
trim_start-Taken s = trim_by-Taken is_space two_byte_space three_byte_space s

pub trim_end-Taken : (s : List ℕ) → (trail : List ℕ) × (trim_end s ++ trail ≡ s)
unfolding trim_end
trim_end-Taken s =
    let (lead, e) =
      trim_by-Taken is_space (λ b a. two_byte_space a b) (λ c b a. three_byte_space a b c)
        (reverse s) in
    (reverse lead, sym (reverse-append lead _) ∙ ap reverse e ∙ reverse-reverse s)
