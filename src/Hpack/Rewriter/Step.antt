-- ===== src/Hpack/Rewriter/Step.antt =====
-- One round of `rewrite` moves on in the block, and keeps what the loop relies on.
use mathlib.Core.Path.{subst}
use mathlib.Core.Bool.{true≢false}
use fingerprint_bridge.Base.{
  ℕ, ◌-◌, ◌≤◌, ◌<◌, ◌≡◌, refl, sym, ap, ◌∙◌, List, ◌++◌, Bool, true, false, not, ◌&&◌, length,
  length-append, length-take, drop, Result, ok, >>=-eq-ok, ensure, arith, min, ◌==◌, if◌then◌else◌,
  leb, leb→le, bit_and, ensure-eq-ok, ok-injective,
}
use fingerprint_bridge.Base.Bits.{bit_set}
use fingerprint_bridge.Rewrite.Mapping.{Url, Mapping}
use fingerprint_bridge.Hpack.Integer.{integer}
use fingerprint_bridge.Hpack.Integer.Shape.{integer_takes, skip_string_takes}
use fingerprint_bridge.Hpack.Table.{Header, Table, evict, insert}
use fingerprint_bridge.Hpack.Table.Eviction.{IsValid, evict-IsValid, insert-fit}
use fingerprint_bridge.Hpack.Rewriter.{
  HpackCrate, State, Layout, layout, skip_if, grow, put_field, max_block, slice, byte_at,
  table_update, check_field, only, field, step,
}

module _ (crate : HpackCrate) (block : List ℕ) where
  -- What the loop relies on: both tables are in order, and what is written stays within the limit.
  pub record IsSane (s : State crate) : Type 0 where
    pub table : IsValid s.rewriter.outbound
    pub inside : s.p ≤ length block
    pub early : s.fields ≡ false → length s.out ≤ s.p
    pub late : s.fields ≡ true → length s.out ≤ max_block
    pub bounded : s.total ≤ max_block

  length-slice : (p q : ℕ) → q ≤ length block → length (slice block p q) ≤ q - p
  length-slice p q h = omega (arith, length-take (q - p) (drop p block))

  table_update_moves :
      (limit : ℕ) (s t : State crate)
      → IsSane s
      → table_update crate block limit s ≡ ok t
      → IsSane t × (s.p < t.p)
  unfolding table_update
  table_update_moves limit s t h e =
      let (u, first, e₁) =
        >>=-eq-ok (ensure (not s.fields) "HPACK table update after fields") _ e in
      let (n, read, e₂) = >>=-eq-ok (integer block s.p 5) _ e₁ in
      let (w, within, e₃) =
        >>=-eq-ok
          (ensure (leb n.0 (min limit 65536)) "HPACK table exceeds advertised/configured limit") _
          e₂ in
      let (d, decoded, e₄) =
        >>=-eq-ok (crate.decode s.rewriter.inbound (slice block s.p n.1)) _ e₃ in
      let (table, evicted, e₅) =
        >>=-eq-ok (evict (record s.rewriter.outbound { limit = n.0 })) _ e₄ in
      let (lo, hi, six, bound) = integer_takes block s.p 5 n.0 n.1 h.inside read in
      let (kept, same, valid) =
        evict-IsValid (record s.rewriter.outbound { limit = n.0 }) h.table.counted in
      let is_first : s.fields ≡ false = ground (arith, ensure-eq-ok (not s.fields) _ first) in
      let next : State crate = record s {
        rewriter = record { inbound = d.0; outbound = table };
        p = n.1;
        out = s.out ++ slice block s.p n.1;
      } in
      let sane : IsSane next = record {
        table = subst IsValid (ok-injective (sym same ∙ evicted)) valid;
        inside = hi;
        early = λ f.
            omega (
              arith,
              length-append s.out (slice block s.p n.1),
              length-slice s.p n.1 hi,
              h.early f,
            );
        late = λ f. absurd (true≢false (sym f ∙ is_first));
        bounded = h.bounded;
      } in
      subst (λ t. IsSane t × (s.p < t.p)) (ok-injective {a = next} {b = t} e₅) (sane, lo)

  check_field_keeps :
      (parse_url : List ℕ → Result Url) (m : Mapping) (response : Bool) (s t : State crate)
      (name bytes mapped : List ℕ)
      → check_field crate parse_url m response s (name, bytes) ≡ ok (t, mapped)
      → (t.total ≤ max_block) × (t.out ≡ s.out) × (t.p ≡ s.p)
  unfolding check_field
  check_field_keeps parse_url m response s t name bytes mapped e = ground arith

  skip_if_takes :
      (b : Bool) (p q : ℕ)
      → p ≤ length block
      → skip_if b block p ≡ ok q
      → (p ≤ q) × (q ≤ length block)
  unfolding skip_if
  skip_if_takes true p q h e = let (lo, hi) = skip_string_takes block p q h e in (omega arith, hi)
  skip_if_takes false p q h e = let same : p ≡ q = ok-injective e in (omega arith, omega arith)

  pub layout_takes :
      (p : ℕ) (l : Layout)
      → p ≤ length block
      → layout block p ≡ ok l
      → (p < l.end) × (l.end ≤ length block)
  unfolding layout
  layout_takes p l h e =
      let c : ℕ = byte_at block p in
      let indexed : Bool = bit_set c 7 in
      let incremental : Bool = not indexed && bit_set c 6 in
      let bits : ℕ = if indexed then 7 else if incremental then 6 else 4 in
      let (n, read, e₁) = >>=-eq-ok (integer block p bits) _ e in
      let (value_start, named, e₂) = >>=-eq-ok (skip_if (not indexed && n.0 == 0) block n.1) _ e₁ in
      let (end, valued, e₃) = >>=-eq-ok (skip_if (not indexed) block value_start) _ e₂ in
      let (lo, hi, six, bound) = integer_takes block p bits n.0 n.1 h read in
      let (lo₁, hi₁) = skip_if_takes (not indexed && n.0 == 0) n.1 value_start hi named in
      let (lo₂, hi₂) = skip_if_takes (not indexed) value_start end hi₁ valued in
      let same : end ≡ l.end = ap Layout.end (ok-injective e₃) in (omega arith, omega arith)

  grow-IsValid : (l : Layout) (t u : Table) (h : Header) → IsValid t → grow l t h ≡ ok u → IsValid u
  unfolding grow
  grow-IsValid l t u h v e = go l.incremental refl
    where
      go : (b : Bool) → l.incremental ≡ b → IsValid u
      go true i =
          let (grown, same, entries, limit, valid) = insert-fit t h v in
          let e' : insert t h ≡ ok u = rw (i, grow) at e in
          subst IsValid (ok-injective (sym same ∙ e')) valid
      go false i = let e' : ok t ≡ ok u = rw (i, grow) at e in subst IsValid (ok-injective e') v

  module _ (parse_url : List ℕ → Result Url) (m : Mapping) (response : Bool) where
    field_moves :
        (s t : State crate)
        → IsSane s
        → field crate parse_url m response block s ≡ ok t
        → IsSane t × (s.p < t.p)
    unfolding field
    field_moves s t h e =
        let (l, laid, e₁) = >>=-eq-ok (layout block s.p) _ e in
        let (d, decoded, e₂) =
          >>=-eq-ok (crate.decode s.rewriter.inbound (slice block s.p l.end)) _ e₁ in
        let (header, one, e₃) = >>=-eq-ok (only crate d.1) _ e₂ in
        let (checked, passed, e₄) =
          >>=-eq-ok (check_field crate parse_url m response s header) _ e₃ in
        let (grown, inserted, e₅) =
          >>=-eq-ok (grow l s.rewriter.outbound (header.0, checked.1)) _ e₄ in
        let written : List ℕ = put_field crate block s.p l s.rewriter.outbound header checked.1 in
        let (w, fits, e₆) =
          >>=-eq-ok
            (ensure (leb (length (s.out ++ written)) max_block) "rewritten header block too large")
            _ e₅ in
        let next : State crate = record (checked.0) {
          rewriter = record { inbound = d.0; outbound = grown };
          p = l.end;
          fields = true;
          out = s.out ++ written;
        } in
        let (lo, hi) = layout_takes s.p l h.inside laid in
        let (total, same_out, same_p) =
          check_field_keeps parse_url m response s checked.0 header.0 header.1 checked.1 passed in
        let room : leb (length (s.out ++ written)) max_block ≡ true = ensure-eq-ok _ _ fits in
        let sane : IsSane next = record {
          table = grow-IsValid l s.rewriter.outbound grown (header.0, checked.1) h.table inserted;
          inside = hi;
          early = λ f. absurd (true≢false f);
          late = λ f. leb→le _ _ room;
          bounded = total;
        } in
        subst (λ t. IsSane t × (s.p < t.p)) (ok-injective {a = next} {b = t} e₆) (sane, lo)

    -- Whatever the block holds, a round of `rewrite` that succeeds moves on in the block, leaves the
    -- outgoing table with a right size within its limit, and keeps the output and the decoded headers
    -- within 1 MiB.
    pub step_moves :
        (limit : ℕ) (s t : State crate)
        → IsSane s
        → step crate parse_url m response block limit s ≡ ok t
        → IsSane t × (s.p < t.p)
    unfolding step
    step_moves limit s t h e = go (bit_and (byte_at block s.p) 0xe0 == 0x20) refl
      where
        go : (b : Bool) → (bit_and (byte_at block s.p) 0xe0 == 0x20) ≡ b → IsSane t × (s.p < t.p)
        go true i = table_update_moves limit s t h (rw (i, step) at e)
        go false i = field_moves s t h (rw (i, step) at e)
