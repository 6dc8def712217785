-- ===== src/Hpack/Receiver/Steps.antt =====
-- One round of `rewrite`, for a receiver: the part that is read and the part that is written.
use fingerprint_bridge.Hpack.Receiver.Pieces.{Piece, piece}
use mathlib.Core.Path.{subst}
use fingerprint_bridge.Base.{
  ℕ, ◌+◌, ◌≤◌, ◌<◌, ◌≡◌, refl, sym, ap, ap₂, ◌∙◌, ◌⊎◌, List, [], ◌∷◌, ◌++◌, Bool, true, false, not,
  length, take, drop, All, Result, ok, >>=-eq-ok, ensure, arith, min, leb, leb→le, ensure-eq-ok,
  ok-injective, inl, inr,
}
use fingerprint_bridge.Rewrite.Mapping.{Url, Mapping, value}
use fingerprint_bridge.Hpack.Integer.{integer}
use fingerprint_bridge.Hpack.Integer.Shape.{integer_takes}
use fingerprint_bridge.Hpack.Table.{Header, Table, evict, insert}
use fingerprint_bridge.Hpack.Table.Eviction.{IsValid, evict-fit, insert-fit}
use fingerprint_bridge.Hpack.Rewriter.{
  HpackCrate, State, Layout, layout, grow, put_field, max_block, slice, byte_at, table_update,
  check_field, only, field, step,
}
use fingerprint_bridge.Hpack.Rewriter.Step.{IsSane, layout_takes}
use fingerprint_bridge.Hpack.Receiver.{Field, IsUpdate, Block}
use fingerprint_bridge.Hpack.Receiver.Fields.{put_field-Field}
use fingerprint_bridge.Hpack.Receiver.Wholes.{is_update, one_field, one-IsUpdate}

module _ (crate : HpackCrate) (sixty_one : length crate.static_table ≡ 61)
    (table_of : crate.Decoder → Table)
    (decodes : (d d' : crate.Decoder) (bytes : List ℕ) (hs : List Header)
      → crate.decode d bytes ≡ ok (d', hs)
      → Block crate.static_table (table_of d) bytes hs (table_of d'))
    (parse_url : List ℕ → Result Url) (m : Mapping) (response : Bool) (block : List ℕ)
    (bytes_only : All (λ b. b < 256) block) where
  -- What a round reads and writes is an update of both tables, or a field and its mapped field.
  pub record Advance (s t : State crate) : Type 0 where
    pub part : List ℕ
    pub written : List ℕ
    pub from : drop s.p block ≡ part ++ drop t.p block
    pub to : t.out ≡ s.out ++ written
    pub limit : t.rewriter.outbound.limit ≤ 65536
    pub meaning :
        (IsUpdate crate.static_table
            (table_of s.rewriter.inbound)
            part
            (table_of t.rewriter.inbound)
          × IsUpdate crate.static_table s.rewriter.outbound written t.rewriter.outbound)
        ⊎ ((name : List ℕ) × (v : List ℕ) × (w : List ℕ) × (value parse_url m name v response
              ≡ ok w)
            × Field crate.static_table
                (table_of s.rewriter.inbound)
                part
                (name, v)
                (table_of t.rewriter.inbound)
            × Field crate.static_table s.rewriter.outbound written (name, w) t.rewriter.outbound)

  check_field_value :
      (s t : State crate) (name v w : List ℕ)
      → check_field crate parse_url m response s (name, v) ≡ ok (t, w)
      → (value parse_url m name v response ≡ ok w) × (length name ≤ 1048576) × (length w ≤ 1048576)
  unfolding check_field
  check_field_value s t name v w e = ground arith

  grow_limit :
      (l : Layout) (t u : Table) (h : Header) → IsValid t → grow l t h ≡ ok u → u.limit ≡ t.limit
  unfolding grow
  grow_limit l t u h valid e = go l.incremental refl
    where
      go : (b : Bool) → l.incremental ≡ b → u.limit ≡ t.limit
      go true i =
          let (grown, same, entries, limit, valid') = insert-fit t h valid in
          let e' : insert t h ≡ ok u = rw (i, grow) at e in
          ap Table.limit (ok-injective (sym e' ∙ same)) ∙ limit
      go false i =
          let e' : ok t ≡ ok u = rw (i, grow) at e in ap Table.limit (sym (ok-injective e'))

  update-Advance :
      (limit : ℕ) (s t : State crate)
      → IsSane crate block s
      → is_update (byte_at block s.p) ≡ true
      → table_update crate block limit s ≡ ok t
      → Advance s t
  unfolding table_update
  update-Advance limit s t h test e =
      let (u, first, e₁) =
        >>=-eq-ok (ensure (not s.fields) "HPACK table update after fields") _ e in
      let (n, read, e₂) = >>=-eq-ok (integer block s.p 5) _ e₁ in
      let (w, within, e₃) =
        >>=-eq-ok
          (ensure (leb n.0 (min limit 65536)) "HPACK table exceeds advertised/configured limit") _
          e₂ in
      let (d, decoded, e₄) =
        >>=-eq-ok (crate.decode s.rewriter.inbound (slice block s.p n.1)) _ e₃ in
      let small_table : Table = record s.rewriter.outbound { limit = n.0 } in
      let (table, evicted, e₅) = >>=-eq-ok (evict small_table) _ e₄ in
      let (lo, hi, six, bound) = integer_takes block s.p 5 n.0 n.1 h.inside read in
      let part : List ℕ = slice block s.p n.1 in
      let here : Piece block s.p n.1 = piece block s.p n.1 bytes_only lo hi in
      let allowed : n.0 ≤ min limit 65536 = leb→le _ _ (ensure-eq-ok _ _ within) in
      let end : n.1 ≡ length (take s.p block) + length part =
        omega (arith, here.before, here.size) in
      let (inbound, number) =
        one-IsUpdate crate.static_table (table_of s.rewriter.inbound) (table_of d.0)
          (take s.p block) part (drop n.1 block) d.1 n.0
          (decodes s.rewriter.inbound d.0 part d.1 decoded) here.small (omega (arith, here.size))
          (ap is_update (sym here.first) ∙ test)
          (ap₂ (λ (b : List ℕ) (p : ℕ). integer b p 5) here.whole here.before
            ∙ read
            ∙ ap (λ (q : ℕ). ok (n.0, q)) end) in
      let (k, seven, zero_six, five, again, cut) = inbound in
      let same_limit : table.limit ≡ n.0 =
        ap Table.limit (ok-injective (sym evicted ∙ evict-fit small_table h.table.counted)) in
      let next : State crate = record s {
        rewriter = record { inbound = d.0; outbound = table };
        p = n.1;
        out = s.out ++ part;
      } in
      let advance : Advance s next = record {
        part = part;
        written = part;
        from = here.left;
        to = refl;
        limit = omega (arith, same_limit, allowed);
        meaning = inl (inbound, (n.0, seven, zero_six, five, number, evicted));
      } in
      subst (Advance s) (ok-injective {a = next} {b = t} e₅) advance

  only_lem : (hs : List Header) (h : Header) → only crate hs ≡ ok h → hs ≡ h ∷ []
  only_lem [] h e = cc
  only_lem (h' ∷ []) h e = ap (λ (z : Header). z ∷ []) (ok-injective e)
  only_lem (h' ∷ h'' ∷ hs) h e = cc

  -- The layout of a piece that ends with it.
  Piece-layout :
      (p : ℕ) (l : Layout)
      → Piece block p l.end
      → layout block p ≡ ok l
      → layout (take p block ++ (slice block p l.end ++ drop l.end block)) (length (take p block))
        ≡ ok l
  Piece-layout p l here laid = ap₂ layout here.whole here.before ∙ laid

  -- A piece that the decoder answers with one header is that field.
  read-Field :
      (p : ℕ) (l : Layout) (d d' : crate.Decoder) (hs : List Header) (h : Header)
      → Piece block p l.end
      → p < l.end
      → is_update (byte_at block p) ≡ false
      → layout block p ≡ ok l
      → crate.decode d (slice block p l.end) ≡ ok (d', hs)
      → only crate hs ≡ ok h
      → Field crate.static_table (table_of d) (slice block p l.end) h (table_of d')
  read-Field p l d d' hs h here some_bytes test laid decoded one =
      one_field crate.static_table (table_of d) (table_of d') (take p block) (slice block p l.end)
        (drop l.end block) h l
        (subst
          (λ (hs : List Header).
            Block crate.static_table (table_of d) (slice block p l.end) hs (table_of d'))
          (only_lem hs h one) (decodes d d' (slice block p l.end) hs decoded))
        here.small (ap is_update (sym here.first) ∙ test) (Piece-layout p l here laid)
        (omega (arith, here.before, here.size, some_bytes))

  -- What is written for it represents the mapped field.
  written-Field :
      (p : ℕ) (l : Layout) (u u' t t' : Table) (name v w : List ℕ)
      → Piece block p l.end
      → layout block p ≡ ok l
      → Field crate.static_table u (slice block p l.end) (name, v) u'
      → IsValid t
      → t.limit ≤ 65536
      → length name ≤ 1048576
      → length w ≤ 1048576
      → grow l t (name, w) ≡ ok t'
      → Field crate.static_table t (put_field crate block p l t (name, v) w) (name, w) t'
  written-Field p l u u' t t' name v w here laid read valid small name_fits value_fits grown =
      subst (λ (b : List ℕ). Field crate.static_table t b (name, w) t')
        (ap₂ (λ (b : List ℕ) (q : ℕ). put_field crate b q l t (name, v) w) here.whole here.before)
        (put_field-Field crate sixty_one t valid small name v w name_fits value_fits (take p block)
          (drop l.end block) u u' (slice block p l.end) l read here.small
          (Piece-layout p l here laid) t' grown)

  field-Advance :
      (s t : State crate)
      → IsSane crate block s
      → s.rewriter.outbound.limit ≤ 65536
      → is_update (byte_at block s.p) ≡ false
      → field crate parse_url m response block s ≡ ok t
      → Advance s t
  unfolding field
  field-Advance s t h small_limit test e =
      let outbound : Table = s.rewriter.outbound in
      let (l, laid, e₁) = >>=-eq-ok (layout block s.p) _ e in
      let (d, decoded, e₂) =
        >>=-eq-ok (crate.decode s.rewriter.inbound (slice block s.p l.end)) _ e₁ in
      let (header, one, e₃) = >>=-eq-ok (only crate d.1) _ e₂ in
      let (checked, passed, e₄) =
        >>=-eq-ok (check_field crate parse_url m response s header) _ e₃ in
      let (grown, inserted, e₅) = >>=-eq-ok (grow l outbound (header.0, checked.1)) _ e₄ in
      let written : List ℕ = put_field crate block s.p l outbound header checked.1 in
      let (w, fits, e₆) =
        >>=-eq-ok
          (ensure (leb (length (s.out ++ written)) max_block) "rewritten header block too large") _
          e₅ in
      let next : State crate = record (checked.0) {
        rewriter = record { inbound = d.0; outbound = grown };
        p = l.end;
        fields = true;
        out = s.out ++ written;
      } in
      let (lo, hi) = layout_takes crate block s.p l h.inside laid in
      let here : Piece block s.p l.end = piece block s.p l.end bytes_only lo hi in
      let read = read-Field s.p l s.rewriter.inbound d.0 d.1 header here lo test laid decoded one in
      let (valued, name_fits, value_fits) =
        check_field_value s checked.0 header.0 header.1 checked.1 passed in
      let advance : Advance s next = record {
        part = slice block s.p l.end;
        written = written;
        from = here.left;
        to = refl;
        limit = omega (
          arith,
          small_limit,
          grow_limit l outbound grown (header.0, checked.1) h.table inserted,
        );
        meaning = inr (
          header.0,
          header.1,
          checked.1,
          valued,
          read,
          written-Field s.p l (table_of s.rewriter.inbound) (table_of d.0) outbound grown header.0
              header.1 checked.1 here laid read h.table small_limit name_fits value_fits inserted,
        );
      } in
      subst (Advance s) (ok-injective {a = next} {b = t} e₆) advance

  pub step-Advance :
      (limit : ℕ) (s t : State crate)
      → IsSane crate block s
      → s.rewriter.outbound.limit ≤ 65536
      → step crate parse_url m response block limit s ≡ ok t
      → Advance s t
  unfolding step
  step-Advance limit s t h small_limit e = go (is_update (byte_at block s.p)) refl
    where
      go : (b : Bool) → is_update (byte_at block s.p) ≡ b → Advance s t
      go true i = update-Advance limit s t h i (rw (i, step) at e)
      go false i = field-Advance s t h small_limit i (rw (i, step) at e)
