-- ===== src/Hpack/Table/Lookup.antt =====
-- `find` and `get`: a reference that `find` returns names the header that was asked for.
use native.Mathlib.Nat.{zero-add}
use fingerprint_bridge.Base.{
  ℕ, suc, ◌+◌, ◌-◌, ◌≡◌, refl, sym, ap, ◌∙◌, ◌⊎◌, List, [], ◌∷◌, ◌++◌, Bool, true, false, Option,
  some, arith, length, get_elem?, get_elem?-append_left, get_elem?-append_right, leb, ◌==◌,
  Option-cases, Bool-cases, inl, inr, All,
}
use fingerprint_bridge.Hpack.Table.{Header, Table, matches, position, get, find}

-- Where `position` stops: nowhere, if every test fails, or at an entry that passes.
position-cases :
    (i : ℕ) (test : Header → Bool) (hs : List Header)
    → ((position i test hs ≡ 0) × All (λ h. test h ≡ false) hs)
      ⊎ ((j : ℕ) × (h : Header) × (position i test hs ≡ suc (i + j))
          × (get_elem? hs j ≡ some h)
          × (test h ≡ true))
unfolding position
position-cases i test [] = inl (refl, tt)
position-cases i test (h ∷ hs) = elim (Bool-cases (test h)) [
  | inl hit ↦ inr (0, h, rw hit (omega arith), refl, hit)
  | inr miss ↦ elim (position-cases (i + 1) test hs) [
    | inl (e, none_fits) ↦ inl (rw miss e, (miss, none_fits))
    | inr (j, k, e, at_j, fits) ↦ inr (suc j, k, rw miss (omega (arith, e)), at_j, fits)
  ]
]

module _ (static_table : List Header) (sixty_one : length static_table ≡ 61) where
  -- The two tables have one address space.
  get-suc :
      (t : Table) (j : ℕ) → get static_table t (suc j) ≡ get_elem? (static_table ++ t.entries) j
  unfolding get
  get-suc t j = elim (Bool-cases (leb (suc j) 61)) [
    | inl early ↦
        let here : suc j - 1 ≡ j = omega arith in
        rw (not_zero, early, here)
          (sym (get_elem?-append_left static_table t.entries j (ground (arith, sixty_one))))
    | inr late ↦
        let k : ℕ = j - 61 in
        let here : suc j - 62 ≡ k = omega arith in
        let there : j ≡ length static_table + k = ground (arith, sixty_one) in
        rw (not_zero, late, here)
          (sym (
            ap (get_elem? (static_table ++ t.entries)) there
            ∙ get_elem?-append_right static_table t.entries k))
  ]
    where
      not_zero : (suc j == 0) ≡ false
      not_zero = ground arith

  -- A reference that `find` returns resolves, in the two tables, to a header with that name, and
  -- with that value where one is asked for. It returns 0 only where no header of the tables fits.
  pub find-cases :
      (t : Table) (preferred : ℕ) (name : List ℕ) (value : Option (List ℕ))
      → ((find static_table t preferred name value ≡ 0)
          × All (λ h. matches name value h ≡ false) (static_table ++ t.entries))
        ⊎ ((h : Header) × (get static_table t (find static_table t preferred name value) ≡ some h)
            × (matches name value h ≡ true))
  unfolding find
  find-cases t preferred name value = elim (Option-cases (get static_table t preferred)) [
    | inl nothing ↦ rw (nothing, find) scan
    | inr (h, found) ↦ elim (Bool-cases (matches name value h)) [
      | inl hit ↦ rw (found, find) (rw hit (inr (h, found, hit)))
      | inr miss ↦ rw (found, find) (rw miss scan)
    ]
  ]
    where
      searched : ℕ
      searched = position 0 (matches name value) (static_table ++ t.entries)

      scan :
          ((searched ≡ 0) × All (λ h. matches name value h ≡ false) (static_table ++ t.entries))
          ⊎ ((h : Header) × (get static_table t searched ≡ some h) × (matches name value h ≡ true))
      scan = elim (position-cases 0 (matches name value) (static_table ++ t.entries)) [
        | inl nowhere ↦ inl nowhere
        | inr (j, h, e, at_j, fits) ↦ inr (
          h,
          rw e (get-suc t (0 + j) ∙ ap (get_elem? (static_table ++ t.entries)) (zero-add j) ∙ at_j),
          fits,
        )
      ]
