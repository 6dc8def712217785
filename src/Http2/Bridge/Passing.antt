-- ===== src/Http2/Bridge/Passing.antt =====
-- The specification of a direction: frames pass one by one, and header blocks with their values mapped.
use mathlib.Core.Path.{subst}
use fingerprint_bridge.Base.{
  ℕ, ◌≡◌, refl, sym, ap, ◌∙◌, List, [], ◌∷◌, ◌++◌, append-nil, append_assoc, Bool, false, ◌==◌,
  length, some, Result, ok, Bool-cases, inl, inr,
}
use fingerprint_bridge.Rewrite.Mapping.{Url, Mapping}
use fingerprint_bridge.Hpack.Table.{Header, Table}
use fingerprint_bridge.Hpack.Rewriter.{HpackCrate, HeaderRewriter, new}
use fingerprint_bridge.Hpack.Receiver.{Block}
use fingerprint_bridge.Hpack.Receiver.Rewritten.{IsMapped}
use fingerprint_bridge.Http2.Frame.{Frame, read}
use fingerprint_bridge.Http2.Reframe.Carries.{header_block, OnlyLastEnds}
use fingerprint_bridge.Http2.Direction.{PeerLimits, Direction}
use fingerprint_bridge.Http2.Direction.Verbatim.{frame_bytes, wire}
use fingerprint_bridge.Http2.Direction.Gathered.{Reads}
use fingerprint_bridge.Http2.Bridge.Orderly.{IsHandled}

wire-append : (fs gs : List Frame) → wire (fs ++ gs) ≡ wire fs ++ wire gs
wire-append [] gs = refl
wire-append (f ∷ fs) gs =
    ap (λ (l : List ℕ). frame_bytes f ++ l) (wire-append fs gs)
    ∙ sym (append_assoc (frame_bytes f) (wire fs) (wire gs))

Reads-append :
    (fs gs : List Frame) (r mid r' : List ℕ)
    → Reads r fs mid
    → Reads mid gs r'
    → Reads r (fs ++ gs) r'
Reads-append [] gs r mid r' same h = subst (λ (l : List ℕ). Reads l gs r') (sym same) h
Reads-append (f ∷ fs) gs r mid r' (next, found, rest) h =
    (next, found, Reads-append fs gs next mid r' rest h)

module _ (crate : HpackCrate) (table_of : crate.Decoder → Table) (parse_url : List ℕ → Result Url)
    (m : Mapping) (response : Bool) where
  -- The frames that a direction has taken, those that it has sent, and the dynamic tables of the peer
  -- that sends and of the peer that receives.
  pub data Relayed : List Frame → List Frame → Table → Table → Type 0 where
    nothing : Relayed [] [] (table_of crate.fresh) ((new crate).outbound)
    as_it_is :
        (taken sent : List Frame) (t u : Table) (f : Frame)
        → Relayed taken sent t u
        → (f.kind == 1) ≡ false
        → Relayed (taken ++ f ∷ []) (sent ++ f ∷ []) t u
    headers :
        (taken sent : List Frame) (t u t' u' : Table) (group out : List Frame)
        (block encoded : List ℕ) (hs ms : List Header)
        → Relayed taken sent t u
        → OnlyLastEnds group
        → header_block group ≡ ok block
        → Block crate.static_table t block hs t'
        → IsMapped parse_url m response hs ms
        → OnlyLastEnds out
        → header_block out ≡ ok encoded
        → Block crate.static_table u encoded ms u'
        → Relayed (taken ++ group) (sent ++ out) t' u'

  -- A direction with the prefix that it has passed on, where `whole` is what comes in altogether.
  pub record IsRelayed (whole opening : List ℕ) (d : Direction crate) (left : List ℕ) : Type 0 where
    pub rest : List ℕ
    pub taken : List Frame
    pub sent : List Frame
    pub begins : whole ≡ opening ++ rest
    pub reads : Reads rest taken left
    pub writes : d.sent ≡ opening ++ wire sent
    pub relayed : Relayed taken sent (table_of d.decoder.inbound) d.decoder.outbound

  module _ (sixty_one : length crate.static_table ≡ 61)
      (decodes : (d d' : crate.Decoder) (bytes : List ℕ) (hs : List Header)
        → crate.decode d bytes ≡ ok (d', hs)
        → Block crate.static_table (table_of d) bytes hs (table_of d')) where
    pub handled-IsRelayed :
        (whole opening : List ℕ) (limits : PeerLimits) (frame : Frame) (now r r' : List ℕ)
        (d d' : Direction crate)
        → read now ≡ ok (some (frame, r))
        → IsHandled crate table_of parse_url m sixty_one decodes response limits frame r d d' r'
        → IsRelayed whole opening d now
        → IsRelayed whole opening d' r'
    handled-IsRelayed whole opening limits frame now r r' d d' found x h =
        elim (Bool-cases (frame.kind == 1)) [
          | inl is_headers ↦
              let p = x.passed is_headers in
              record {
                rest = h.rest;
                taken = h.taken ++ (frame ∷ p.frames);
                sent = h.sent ++ p.out;
                begins = h.begins;
                reads =
                    Reads-append h.taken (frame ∷ p.frames) h.rest now r' h.reads
                      (r, found, p.taken);
                writes =
                    p.sent
                    ∙ ap (λ (l : List ℕ). l ++ wire p.out) h.writes
                    ∙ append_assoc opening (wire h.sent) (wire p.out)
                    ∙ ap (λ (l : List ℕ). opening ++ l) (sym (wire-append h.sent p.out));
                relayed =
                    headers h.taken h.sent _ _ _ _ (frame ∷ p.frames) p.out p.block p.encoded
                      p.received.sent p.received.received h.relayed p.ends p.carried
                      p.received.reads p.received.mapped p.out_ends p.resent p.received.means;
              }
          | inr other ↦
              let (same, sent, rest) = x.kept other in
              record {
                rest = h.rest;
                taken = h.taken ++ frame ∷ [];
                sent = h.sent ++ frame ∷ [];
                begins = h.begins;
                reads =
                    Reads-append h.taken (frame ∷ []) h.rest now r' h.reads (r, found, sym rest);
                writes =
                    sent
                    ∙ ap (λ (l : List ℕ). l ++ frame_bytes frame) h.writes
                    ∙ append_assoc opening (wire h.sent) (frame_bytes frame)
                    ∙ ap (λ (l : List ℕ). opening ++ l)
                        (sym (
                          wire-append h.sent (frame ∷ [])
                          ∙ ap (λ (l : List ℕ). wire h.sent ++ l)
                              (append-nil (frame_bytes frame))));
                relayed =
                    subst
                      (λ (c : HeaderRewriter crate).
                        Relayed (h.taken ++ frame ∷ []) (h.sent ++ frame ∷ []) (table_of c.inbound)
                          c.outbound)
                      (sym same) (as_it_is h.taken h.sent _ _ frame h.relayed other);
              }
        ]
