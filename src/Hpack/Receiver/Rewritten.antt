-- ===== src/Hpack/Receiver/Rewritten.antt =====
-- What a receiver reads in the blocks that `rewrite` gives.
use mathlib.Core.Path.{subst}
use fingerprint_bridge.Base.{
  ℕ, zero, suc, ◌+◌, ◌≤◌, ◌<◌, ◌≡◌, sym, ap, ◌∙◌, List, [], ◌∷◌, ◌++◌, append-nil, append_assoc,
  Bool, false, not, ◌||◌, length, drop, drop_all, All, Result, ok, >>=-eq-ok, ensure, arith, ◌==◌,
  ltb, ltb-false, leb, ok-injective, inl, inr, Bool-cases,
}
use fingerprint_bridge.Rewrite.Mapping.{Url, Mapping, value}
use fingerprint_bridge.Hpack.Table.{Header, Table}
use fingerprint_bridge.Hpack.Table.Eviction.{IsValid}
use fingerprint_bridge.Hpack.Rewriter.{
  HpackCrate, HeaderRewriter, State, max_block, start, step, rewrite_loop, rewrite,
}
use fingerprint_bridge.Hpack.Rewriter.Step.{IsSane, step_moves}
use fingerprint_bridge.Hpack.Rewriter.Bounds.{loop_more, loop_done, start-IsSane}
use fingerprint_bridge.Hpack.Receiver.{Block, done, update, field}
use fingerprint_bridge.Hpack.Receiver.Steps.{Advance, step-Advance}

-- The same names in the same order, each with the value that `value` gives for it.
pub data IsMapped (parse_url : List ℕ → Result Url) (m : Mapping) (response : Bool)
    : List Header → List Header → Type 0 where
  no_headers : IsMapped parse_url m response [] []
  one_more :
      (name v w : List ℕ) {hs ms : List Header}
      → value parse_url m name v response ≡ ok w
      → IsMapped parse_url m response hs ms
      → IsMapped parse_url m response ((name, v) ∷ hs) ((name, w) ∷ ms)

module _ (crate : HpackCrate) (table_of : crate.Decoder → Table) (parse_url : List ℕ → Result Url)
    (m : Mapping) (response : Bool) where
  -- The sender's block and the rewritten block, each read with its own dynamic table.
  pub record IsReceived (r r' : HeaderRewriter crate) (block out : List ℕ) : Type 0 where
    pub sent : List Header
    pub received : List Header
    pub reads : Block crate.static_table (table_of r.inbound) block sent (table_of r'.inbound)
    pub mapped : IsMapped parse_url m response sent received
    pub means : Block crate.static_table r.outbound out received r'.outbound
    pub limit : r'.outbound.limit ≤ 65536

  module _ (sixty_one : length crate.static_table ≡ 61)
      (decodes : (d d' : crate.Decoder) (bytes : List ℕ) (hs : List Header)
        → crate.decode d bytes ≡ ok (d', hs)
        → Block crate.static_table (table_of d) bytes hs (table_of d'))
      (block : List ℕ) (bytes_only : All (λ b. b < 256) block) (limit : ℕ) where
    record Rest (s t : State crate) : Type 0 where
      written : List ℕ
      to : t.out ≡ s.out ++ written
      received : IsReceived s.rewriter t.rewriter (drop s.p block) written

    nothing_more :
        (s : State crate) → s.rewriter.outbound.limit ≤ 65536 → length block ≤ s.p → Rest s s
    nothing_more s small end = record {
      written = [];
      to = sym (append-nil s.out);
      received = record {
        sent = [];
        received = [];
        reads = rw (drop_all s.p block end) done;
        mapped = no_headers;
        means = done;
        limit = small;
      };
    }

    one_round :
        (s u t : State crate)
        → Advance crate sixty_one table_of decodes parse_url m response block bytes_only s u
        → Rest u t
        → Rest s t
    one_round s u t a later = record {
      written = a.written ++ later.written;
      to =
          later.to
          ∙ ap (λ (l : List ℕ). l ++ later.written) a.to
          ∙ append_assoc s.out a.written later.written;
      received = rw a.from (elim a.meaning [
        | inl (read, kept) ↦ record {
          sent = later.received.sent;
          received = later.received.received;
          reads = update a.part (drop u.p block) read later.received.reads;
          mapped = later.received.mapped;
          means = update a.written later.written kept later.received.means;
          limit = later.received.limit;
        }
        | inr (name, v, w, valued, read, kept) ↦ record {
          sent = (name, v) ∷ later.received.sent;
          received = (name, w) ∷ later.received.received;
          reads = field a.part (drop u.p block) read later.received.reads;
          mapped = one_more name v w valued later.received.mapped;
          means = field a.written later.written kept later.received.means;
          limit = later.received.limit;
        }
      ]);
    }

    rounds :
        (fuel : ℕ) (s t : State crate)
        → IsSane crate block s
        → s.rewriter.outbound.limit ≤ 65536
        → length block ≤ s.p + fuel
        → rewrite_loop crate parse_url m response fuel block limit s ≡ ok t
        → Rest s t
    rounds zero s t h small enough e =
        let end : length block ≤ s.p = omega (arith, enough) in
        let over : ltb s.p (length block) ≡ false = ground arith in
        let same : s ≡ t =
          ok-injective (sym (loop_done crate parse_url m response block limit zero s over) ∙ e) in
        subst (Rest s) same (nothing_more s small end)
    rounds (suc fuel) s t h small enough e = elim (Bool-cases (ltb s.p (length block))) [
      | inl more ↦
          let (u, moved, rest) =
            >>=-eq-ok (step crate parse_url m response block limit s)
              (rewrite_loop crate parse_url m response fuel block limit)
              (sym (loop_more crate parse_url m response block limit fuel s more) ∙ e) in
          let (sane, forward) = step_moves crate block parse_url m response limit s u h moved in
          let advance =
            step-Advance crate sixty_one table_of decodes parse_url m response block bytes_only
              limit s u h small moved in
          one_round s u t advance
            (rounds fuel u t sane advance.limit (omega (arith, enough, forward)) rest)
      | inr over ↦
          let same : s ≡ t =
            ok-injective
              (sym (loop_done crate parse_url m response block limit (suc fuel) s over) ∙ e) in
          subst (Rest s) same (nothing_more s small (ltb-false s.p (length block) over))
    ]

    -- A receiver that has the table of the outgoing side and reads the block that `rewrite` gives as RFC
    -- 7541 says finds the headers that the block that came in has for a receiver with the decoder's table:
    -- the same names in the same order, each with the value that `value` gives for it. Both then have
    -- the tables that the rewriter keeps. The hypotheses: the static table has 61 entries; where the
    -- decoder of the crate accepts bytes, they mean the headers that it answers with, under its own table;
    -- the block consists of bytes, and the outgoing table is valid and within 64 KiB.
    pub rewrite_received :
        (r r' : HeaderRewriter crate) (out : List ℕ)
        → IsValid r.outbound
        → r.outbound.limit ≤ 65536
        → rewrite crate parse_url m response r block limit ≡ ok (r', out)
        → IsReceived r r' block out
    unfolding rewrite
    rewrite_received r r' out valid small e =
        let (u, fits, e₁) =
          >>=-eq-ok (ensure (leb (length block) max_block) "header block too large") _ e in
        let (t, ran, e₂) =
          >>=-eq-ok
            (rewrite_loop crate parse_url m response (length block) block limit (start crate r)) _
            e₁ in
        let (w, one, e₃) =
          >>=-eq-ok
            (ensure (response || not t.method || t.authority == 1)
              "exactly one :authority required")
            _ e₂ in
        let rest : Rest (start crate r) t =
          rounds (length block) (start crate r) t
            (start-IsSane crate parse_url m response block limit r valid) small (omega arith) ran in
        let same : (t.rewriter, t.out) ≡ (r', out) = ok-injective e₃ in
        subst (λ (x : HeaderRewriter crate × List ℕ). IsReceived r x.0 block x.1) same
          (subst (IsReceived r t.rewriter block) (sym rest.to) rest.received)
