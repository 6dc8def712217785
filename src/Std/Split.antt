-- ===== src/Std/Split.antt =====
-- `split` at a byte, and the position of the first byte of a class.
pub mod Pieces
pub mod Broken
use fingerprint_bridge.Base.{
  ℕ, ◌≡◌, refl, ap, ap₂, List, [], ◌∷◌, ◌++◌, Bool, true, false, ◌==◌, if◌then◌else◌, Option, none,
  some, arith, Bool-cases, inl, inr, ◌⊎◌, ==_iff, sym,
}

-- The pieces between separators: the first, which is always there, and the others.
unfoldable pub split_on : ℕ → List ℕ → List ℕ × List (List ℕ)
split_on sep [] = ([], [])
split_on sep (c ∷ cs) =
    let (piece, more) = split_on sep cs in
    if c == sep then ([], piece ∷ more) else (c ∷ piece, more)

-- The pieces with their separators.
abbrev pub join : ℕ → List (List ℕ) → List ℕ
join sep [] = []
join sep (piece ∷ more) = sep ∷ (piece ++ join sep more)

pub join-split_on : (sep : ℕ) (s : List ℕ) → (split_on sep s).0 ++ join sep (split_on sep s).1 ≡ s
unfolding split_on
join-split_on sep [] = refl
join-split_on sep (c ∷ cs) = elim (Bool-cases (c == sep)) [
  | inl here ↦
      rw here
        (ap₂ (λ (x : ℕ) (l : List ℕ). x ∷ l) (sym ((==_iff c sep).0 here)) (join-split_on sep cs))
  | inr there ↦ rw there (ap (λ (l : List ℕ). c ∷ l) (join-split_on sep cs))
]

-- The bytes before the first one that passes, and those from it on.
unfoldable pub break_at : (ℕ → Bool) → List ℕ → List ℕ × List ℕ
break_at test [] = ([], [])
break_at test (c ∷ cs) =
    let (before, rest) = break_at test cs in if test c then ([], c ∷ cs) else (c ∷ before, rest)

pub append-break_at :
    (test : ℕ → Bool) (s : List ℕ) → (break_at test s).0 ++ (break_at test s).1 ≡ s
unfolding break_at
append-break_at test [] = refl
append-break_at test (c ∷ cs) = elim (Bool-cases (test c)) [
  | inl here ↦ rw here refl
  | inr there ↦ rw there (ap (λ (l : List ℕ). c ∷ l) (append-break_at test cs))
]

-- The rest begins with a byte that passes.
pub break_at_head :
    (test : ℕ → Bool) (s : List ℕ) (c : ℕ) (rest : List ℕ)
    → (break_at test s).1 ≡ c ∷ rest
    → test c ≡ true
unfolding break_at
break_at_head test [] c rest h = cc
break_at_head test (x ∷ s) c rest h = ground (arith, break_at_head test s c rest)
