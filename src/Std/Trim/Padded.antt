-- ===== src/Std/Trim/Padded.antt =====
-- `trim_start_matches` and `trim_end_matches` on a text with padding of known extent.
use mathlib.Core.List.{reverse-append, reverse-reverse, reverse-cons}
use fingerprint_bridge.Base.{
  ℕ, ◌≡◌, refl, List, [], ◌∷◌, ◌++◌, Bool, true, false, reverse, All, All-append,
}
use fingerprint_bridge.Std.Trim.{trim_start_matches, trim_end_matches}

module _ (test : ℕ → Bool) where
  abbrev pub Padding : List ℕ → Type 0
  Padding = All (λ c. test c ≡ true)

  -- The text is not empty, and its first byte is no padding.
  abbrev pub StartsSolid : List ℕ → Type 0
  StartsSolid [] = ⊥
  StartsSolid (c ∷ s) = test c ≡ false

  trim_solid : (s : List ℕ) → StartsSolid s → trim_start_matches test s ≡ s
  unfolding trim_start_matches
  trim_solid [] h = absurd h
  trim_solid (c ∷ s) h = rw h refl

  pub trim_start_matches-padded :
      (lead s : List ℕ) → Padding lead → StartsSolid s → trim_start_matches test (lead ++ s) ≡ s
  unfolding trim_start_matches
  trim_start_matches-padded [] s p h = trim_solid s h
  trim_start_matches-padded (c ∷ lead) s p h = rw p.0 (trim_start_matches-padded lead s p.1 h)

  pub StartsSolid-append : (s t : List ℕ) → StartsSolid s → StartsSolid (s ++ t)
  StartsSolid-append [] t h = absurd h
  StartsSolid-append (c ∷ s) t h = h

  Padding-reverse : (s : List ℕ) → Padding s → Padding (reverse s)
  Padding-reverse [] p = tt
  Padding-reverse (c ∷ s) p =
      rw reverse-cons (All-append _ (reverse s) (c ∷ []) (Padding-reverse s p.1) (p.0, tt))

  pub trim_end_matches-padded :
      (s trail : List ℕ)
      → Padding trail
      → StartsSolid (reverse s)
      → trim_end_matches test (s ++ trail) ≡ s
  unfolding trim_end_matches
  trim_end_matches-padded s trail p h = rw reverse-append (
      rw (trim_start_matches-padded (reverse trail) (reverse s) (Padding-reverse trail p) h)
        (reverse-reverse s))

  pub StartsSolid-lead : (s t : List ℕ) → StartsSolid (reverse s) → StartsSolid (reverse (t ++ s))
  StartsSolid-lead s t h = rw reverse-append (StartsSolid-append (reverse s) (reverse t) h)
