-- ===== src/Std/Split/Broken.antt =====
-- `break_at` takes a text apart in the one way in which its first part has no byte that passes and its
-- second part begins with one, or is empty.
use fingerprint_bridge.Base.{
  ℕ, ◌≡◌, refl, List, [], ◌∷◌, ◌++◌, Bool, true, false, All, Bool-cases, inl, inr,
}
use fingerprint_bridge.Std.Split.{break_at}

-- No byte passes.
abbrev pub None : (ℕ → Bool) → List ℕ → Type 0
None test = All (λ c. test c ≡ false)

-- The text is empty, or its first byte passes.
abbrev pub StartsWith : (ℕ → Bool) → List ℕ → Type 0
StartsWith test [] = Unit
StartsWith test (c ∷ cs) = test c ≡ true

pub break_at-None : (test : ℕ → Bool) (s : List ℕ) → None test (break_at test s).0
unfolding break_at
break_at-None test [] = tt
break_at-None test (c ∷ cs) = elim (Bool-cases (test c)) [
  | inl stop ↦ rw stop tt
  | inr pass ↦ rw pass (pass, break_at-None test cs)
]

pub break_at-StartsWith : (test : ℕ → Bool) (s : List ℕ) → StartsWith test (break_at test s).1
unfolding break_at
break_at-StartsWith test [] = tt
break_at-StartsWith test (c ∷ cs) = elim (Bool-cases (test c)) [
  | inl stop ↦ rw stop stop
  | inr pass ↦ rw pass (break_at-StartsWith test cs)
]

pub break_at-append :
    (test : ℕ → Bool) (front back : List ℕ)
    → None test front
    → StartsWith test back
    → break_at test (front ++ back) ≡ (front, back)
unfolding break_at
break_at-append test [] [] none_of starts = refl
break_at-append test [] (c ∷ cs) none_of starts = rw starts refl
break_at-append test (c ∷ front) back none_of starts =
    rw none_of.0 (rw (break_at-append test front back none_of.1 starts) refl)
