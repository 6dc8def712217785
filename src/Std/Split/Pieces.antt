-- ===== src/Std/Split/Pieces.antt =====
-- `split` takes a joined text apart again, where no piece holds the separator.
use fingerprint_bridge.Base.{
  ℕ, ◌≡◌, refl, List, [], ◌∷◌, ◌++◌, true, false, ◌==◌, All, Bool-cases, inl, inr, arith,
}
use fingerprint_bridge.Std.Split.{split_on, join}

-- The separator does not occur.
abbrev pub Free : ℕ → List ℕ → Type 0
Free sep = All (λ c. (c == sep) ≡ false)

pub split_on-Free :
    (sep : ℕ) (s : List ℕ) → Free sep (split_on sep s).0 × All (Free sep) (split_on sep s).1
unfolding split_on
split_on-Free sep [] = (tt, tt)
split_on-Free sep (c ∷ cs) = elim (Bool-cases (c == sep)) [
  | inl here ↦ rw here (tt, split_on-Free sep cs)
  | inr there ↦ let (p, ps) = split_on-Free sep cs in rw there ((there, p), ps)
]

pub split_on-join :
    (sep : ℕ) (p : List ℕ) (ps : List (List ℕ))
    → Free sep p
    → All (Free sep) ps
    → split_on sep (p ++ join sep ps) ≡ (p, ps)
unfolding split_on
split_on-join sep [] [] h hs = refl
split_on-join sep [] (q ∷ ps) h hs =
    let same : (sep == sep) ≡ true = ground arith in
    rw same (rw (split_on-join sep q ps hs.0 hs.1) refl)
split_on-join sep (c ∷ p) ps h hs = rw h.0 (rw (split_on-join sep p ps h.1 hs) refl)
