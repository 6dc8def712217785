-- ===== src/Tls/Mirror/Sorting.antt =====
-- The loops that sort what the client offered: each identifier is selected or refused.
use mathlib.Core.Path.{subst}
use fingerprint_bridge.Base.{
  ℕ, ◌≡◌, refl, sym, ◌⊎◌, inl, inr, List, [], ◌∷◌, Bool, true, false, Option, none, some,
  Option-cases, All, map, Among, Among-left, Among-right, Bool-cases,
}
use fingerprint_bridge.Tls.Mirror.{selected, refused, flatten}

Among-flatten :
    (r : List ℕ) (texts : List (List ℕ)) (reports : List (List (List ℕ)))
    → Among texts reports
    → Among r texts
    → Among r (flatten reports)
Among-flatten r texts [] m k = absurd m
Among-flatten r texts (first ∷ more) (inl e) k =
    Among-left r first (flatten more) (subst (Among r) e k)
Among-flatten r texts (first ∷ more) (inr m) k =
    Among-right r first (flatten more) (Among-flatten r texts more m k)

-- An identifier is skipped, or known and among those that the backend is given, or reported.
abbrev pub IsHandled :
    {A : Type 0} → (ℕ → Bool) → (ℕ → Option A) → List A → (ℕ → List ℕ) → List (List ℕ) → ℕ → Type 0
IsHandled {A} skipped known given label reported id =
    (skipped id ≡ true)
    ⊎ (((a : A) × (known id ≡ some a) × Among a given) ⊎ Among (label id) reported)

module _ {A : Type 0} (skipped : ℕ → Bool) (known : ℕ → Option A) (label : ℕ → List ℕ) where
  IsHandled-more :
      (given more : List A) (reported reports : List (List ℕ)) (id : ℕ)
      → ((a : A) → Among a given → Among a more)
      → ((r : List ℕ) → Among r reported → Among r reports)
      → IsHandled skipped known given label reported id
      → IsHandled skipped known more label reports id
  IsHandled-more given more reported reports id f g (inl s) = inl s
  IsHandled-more given more reported reports id f g (inr (inl (a, e, m))) = inr (inl (a, e, f a m))
  IsHandled-more given more reported reports id f g (inr (inr m)) = inr (inr (g (label id) m))

  All-IsHandled-more :
      (given more : List A) (reported reports : List (List ℕ)) (ids : List ℕ)
      → ((a : A) → Among a given → Among a more)
      → ((r : List ℕ) → Among r reported → Among r reports)
      → All (IsHandled skipped known given label reported) ids
      → All (IsHandled skipped known more label reports) ids
  All-IsHandled-more given more reported reports [] f g h = tt
  All-IsHandled-more given more reported reports (id ∷ ids) f g h = (
    IsHandled-more given more reported reports id f g h.0,
    All-IsHandled-more given more reported reports ids f g h.1,
  )

  selected_skip :
      (id : ℕ) (ids : List ℕ)
      → skipped id ≡ true
      → (selected skipped known (id ∷ ids) ≡ selected skipped known ids)
        × (refused skipped known (id ∷ ids) ≡ refused skipped known ids)
  unfolding selected refused
  selected_skip id ids s = (rw s refl, rw s refl)

  selected_none :
      (id : ℕ) (ids : List ℕ)
      → skipped id ≡ false
      → known id ≡ none
      → (selected skipped known (id ∷ ids) ≡ selected skipped known ids)
        × (refused skipped known (id ∷ ids) ≡ id ∷ refused skipped known ids)
  unfolding selected refused
  selected_none id ids t e = (rw t (rw e refl), rw t (rw e refl))

  selected_some :
      (id : ℕ) (a : A) (ids : List ℕ)
      → skipped id ≡ false
      → known id ≡ some a
      → (selected skipped known (id ∷ ids) ≡ a ∷ selected skipped known ids)
        × (refused skipped known (id ∷ ids) ≡ refused skipped known ids)
  unfolding selected refused
  selected_some id a ids t e = (rw t (rw e refl), rw t (rw e refl))

  All-IsHandled_same :
      (given given' : List A) (left left' ids : List ℕ)
      → (given' ≡ given) × (left' ≡ left)
      → All (IsHandled skipped known given label (map label left)) ids
      → All (IsHandled skipped known given' label (map label left')) ids
  All-IsHandled_same given given' left left' ids (e, e') h =
      subst (λ (g : List A). All (IsHandled skipped known g label (map label left')) ids) (sym e)
        (subst (λ (l : List ℕ). All (IsHandled skipped known given label (map label l)) ids)
          (sym e') h)

  selected-IsHandled :
      (ids : List ℕ)
      → All
          (IsHandled skipped known
            (selected skipped known ids)
            label
            (map label (refused skipped known ids)))
          ids
  selected-IsHandled [] = tt
  selected-IsHandled (id ∷ ids) =
      let given : List A = selected skipped known ids in
      let left : List ℕ = refused skipped known ids in
      let reported : List (List ℕ) = map label left in
      let rest : All (IsHandled skipped known given label reported) ids = selected-IsHandled ids in
      elim (Bool-cases (skipped id)) [
        | inl s ↦
            All-IsHandled_same given _ left _ (id ∷ ids) (selected_skip id ids s) (inl s, rest)
        | inr t ↦ elim (Option-cases (known id)) [
          | inl u ↦ All-IsHandled_same given _ (id ∷ left) _ (id ∷ ids) (selected_none id ids t u) (
            inr (inr (inl refl)),
            All-IsHandled-more given given reported (label id ∷ reported) ids (λ a m. m)
                (λ r m. inr m) rest,
          )
          | inr (a, k) ↦
              All-IsHandled_same (a ∷ given) _ left _ (id ∷ ids) (selected_some id a ids t k) (
                inr (inl (a, k, inl refl)),
                All-IsHandled-more given (a ∷ given) reported reported ids (λ b m. inr m) (λ r m. m)
                    rest,
              )
        ]
      ]

  -- What is reported of one kind stands in the whole report.
  pub flatten-IsHandled :
      (ids : List ℕ) (reports : List (List (List ℕ)))
      → Among (map label (refused skipped known ids)) reports
      → All (IsHandled skipped known (selected skipped known ids) label (flatten reports)) ids
  flatten-IsHandled ids reports m =
      All-IsHandled-more (selected skipped known ids) (selected skipped known ids)
        (map label (refused skipped known ids)) (flatten reports) ids (λ a k. k)
        (λ r k. Among-flatten r _ reports m k) (selected-IsHandled ids)
