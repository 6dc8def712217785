-- ===== src/Hpack/Rewriter/Bounds.antt =====
-- The loop of `rewrite` ends within its fuel, and its result stays within the limits.
use mathlib.Core.Path.{subst}
use native.Mathlib.Nat.{suc-add}
use fingerprint_bridge.Base.{
  ℕ, zero, suc, ◌+◌, ◌≤◌, ◌≡◌, refl, sym, ap, ◌∙◌, List, Bool, true, false, not, ◌||◌, length,
  Result, ok, err, ◌>>=◌, >>=-eq-ok, Result-cases, ensure, ensure-eq-ok, ok-injective, arith, ltb,
  leb, leb→le, ltb-false, String, ◌⊎◌, ◌==◌, Bool-cases, inl, inr,
}
use fingerprint_bridge.Rewrite.Mapping.{Url, Mapping}
use fingerprint_bridge.Hpack.Table.Eviction.{IsValid}
use fingerprint_bridge.Hpack.Rewriter.{
  HpackCrate, HeaderRewriter, State, max_block, start, step, rewrite_loop, rewrite,
}
use fingerprint_bridge.Hpack.Rewriter.Step.{IsSane, step_moves}

module _ (crate : HpackCrate) (parse_url : List ℕ → Result Url) (m : Mapping) (response : Bool)
    (block : List ℕ) (limit : ℕ) where
  abbrev loop : ℕ → State crate → Result (State crate)
  loop fuel s = rewrite_loop crate parse_url m response fuel block limit s

  pub loop_more :
      (fuel : ℕ) (s : State crate)
      → ltb s.p (length block) ≡ true
      → loop (suc fuel) s ≡ (step crate parse_url m response block limit s >>= loop fuel)
  unfolding rewrite_loop
  loop_more fuel s h = rw h refl

  pub loop_done : (fuel : ℕ) (s : State crate) → ltb s.p (length block) ≡ false → loop fuel s ≡ ok s
  unfolding rewrite_loop
  loop_done zero s h = refl
  loop_done (suc fuel) s h = rw h refl

  at_end :
      (s : State crate)
      → IsSane crate block s
      → length block ≤ s.p + 0
      → ltb s.p (length block) ≡ false
  at_end s h enough = ground arith

  loop_sound :
      (fuel : ℕ) (s t : State crate)
      → IsSane crate block s
      → length block ≤ s.p + fuel
      → loop fuel s ≡ ok t
      → IsSane crate block t × (t.p ≡ length block)
  loop_sound zero s t h enough e =
      let same : s ≡ t = ok-injective (sym (loop_done zero s (at_end s h enough)) ∙ e) in
      subst (λ u. IsSane crate block u × (u.p ≡ length block)) same (h, omega (arith, h.inside))
  loop_sound (suc fuel) s t h enough e = elim (Bool-cases (ltb s.p (length block))) [
    | inl more ↦
        let (u, moved, rest) =
          >>=-eq-ok (step crate parse_url m response block limit s) (loop fuel)
            (sym (loop_more fuel s more) ∙ e) in
        let (sane, forward) = step_moves crate block parse_url m response limit s u h moved in
        loop_sound fuel u t sane (omega arith) rest
    | inr done ↦
        let same : s ≡ t = ok-injective (sym (loop_done (suc fuel) s done) ∙ e) in
        subst (λ u. IsSane crate block u × (u.p ≡ length block)) same
          (h, omega (arith, h.inside, ltb-false s.p (length block) done))
  ]

  -- More fuel than there are bytes left changes nothing: the loop ends by its own test.
  loop_fuel :
      (fuel more : ℕ) (s : State crate)
      → IsSane crate block s
      → length block ≤ s.p + fuel
      → loop (fuel + more) s ≡ loop fuel s
  loop_fuel zero more s h enough =
      loop_done (0 + more) s (at_end s h enough) ∙ sym (loop_done zero s (at_end s h enough))
  loop_fuel (suc fuel) more s h enough = elim (Bool-cases (ltb s.p (length block))) [
    | inl unfinished ↦ rw suc-add (
        loop_more (fuel + more) s unfinished
        ∙ same_rest (λ u. loop_fuel fuel more u)
            (Result-cases (step crate parse_url m response block limit s))
        ∙ sym (loop_more fuel s unfinished))
    | inr done ↦ loop_done (suc fuel + more) s done ∙ sym (loop_done (suc fuel) s done)
  ]
    where
      same_rest :
          ((u : State crate)
            → IsSane crate block u
            → length block ≤ u.p + fuel
            → loop (fuel + more) u ≡ loop fuel u)
          → ((u : State crate) × (step crate parse_url m response block limit s ≡ ok u))
            ⊎ ((x : String) × (step crate parse_url m response block limit s ≡ err x))
          → (step crate parse_url m response block limit s >>= loop (fuel + more))
            ≡ (step crate parse_url m response block limit s >>= loop fuel)
      same_rest ih (inr (x, e)) = rw e refl
      same_rest ih (inl (u, e)) =
          let (sane, forward) = step_moves crate block parse_url m response limit s u h e in
          rw e (ih u sane (omega arith))

  pub start-IsSane :
      (r : HeaderRewriter crate) → IsValid r.outbound → IsSane crate block (start crate r)
  start-IsSane r v = record {
    table = v;
    inside = omega arith;
    early = λ f. omega arith;
    late = λ f. omega arith;
    bounded = omega arith;
  }

  -- The loop of `rewrite` runs at most once for each byte of the block: with more rounds it has the
  -- same result, and where it succeeds it has read the block to its end.
  pub rewrite_loop_ends :
      (r : HeaderRewriter crate) (more : ℕ)
      → IsValid r.outbound
      → (loop (length block + more) (start crate r) ≡ loop (length block) (start crate r))
        × ((t : State crate) → loop (length block) (start crate r) ≡ ok t → t.p ≡ length block)
  rewrite_loop_ends r more v =
      let sane = start-IsSane r v in
      (
        loop_fuel (length block) more (start crate r) sane (omega arith),
        λ t e. (loop_sound (length block) (start crate r) t sane (omega arith) e).1,
      )

  -- From a rewriter whose table is in order, a block that `rewrite` accepts leaves a rewriter whose
  -- table is in order (its size counted right and within its limit), and gives at most 1 MiB.
  pub rewrite_within :
      (r r' : HeaderRewriter crate) (out : List ℕ)
      → IsValid r.outbound
      → rewrite crate parse_url m response r block limit ≡ ok (r', out)
      → IsValid r'.outbound × (length out ≤ max_block)
  unfolding rewrite
  rewrite_within r r' out v e =
      let (u, small, e₁) =
        >>=-eq-ok (ensure (leb (length block) max_block) "header block too large") _ e in
      let (t, ran, e₂) = >>=-eq-ok (loop (length block) (start crate r)) _ e₁ in
      let (w, one, e₃) =
        >>=-eq-ok
          (ensure (response || not t.method || t.authority == 1) "exactly one :authority required")
          _ e₂ in
      let (sane, at_end) =
        loop_sound (length block) (start crate r) t (start-IsSane r v) (omega arith) ran in
      let room : leb (length block) max_block ≡ true = ensure-eq-ok _ _ small in
      let total : length t.out ≤ max_block = elim (Bool-cases t.fields) [
        | inl late ↦ sane.late late
        | inr early ↦ omega (arith, sane.early early, at_end, leb→le _ _ room)
      ] in
      let same = ok-injective e₃ in
      (
        subst IsValid (ap (λ x. x.0.outbound) same) sane.table,
        subst (λ l. length l ≤ max_block) (ap (λ x. x.1) same) total,
      )
