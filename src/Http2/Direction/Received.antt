-- ===== src/Http2/Direction/Received.antt =====
-- What the peer of a direction receives for a HEADERS frame with its CONTINUATION frames.
use mathlib.Core.Path.{subst}
use fingerprint_bridge.Base.{
  ℕ, ◌+◌, ◌-◌, ◌≤◌, ◌<◌, ◌≡◌, refl, sym, ap, ap₂, ◌∙◌, List, [], ◌∷◌, ◌++◌, Bool, not, ◌&&◌, ◌||◌,
  ◌==◌, leb, length, drop, All, All-take, All-drop, All-append, Result, ok, >>=-eq-ok, ensure,
  ok-injective, if◌then◌else◌,
}
use fingerprint_bridge.Base.Bits.{bit_set, low_bits}
use fingerprint_bridge.Std.Ascii.{is_empty}
use fingerprint_bridge.Rewrite.Mapping.{Url, Mapping}
use fingerprint_bridge.Hpack.Table.{Header, Table}
use fingerprint_bridge.Hpack.Table.Eviction.{IsValid}
use fingerprint_bridge.Hpack.Rewriter.{HpackCrate, HeaderRewriter, rewrite, byte_at}
use fingerprint_bridge.Hpack.Rewriter.Bounds.{rewrite_within}
use fingerprint_bridge.Hpack.Receiver.{Block}
use fingerprint_bridge.Hpack.Receiver.Rewritten.{IsReceived, rewrite_received}
use fingerprint_bridge.Http2.Frame.{Frame, write}
use fingerprint_bridge.Http2.Reframe.{split_payload, header_parts, reframe}
use fingerprint_bridge.Http2.Reframe.Payloads.{payloads}
use fingerprint_bridge.Http2.Reframe.Carries.{header_block, OnlyLastEnds, reframe_carries}
use fingerprint_bridge.Http2.Direction.{PeerLimits, Direction, gather, write_all, handle_headers}
use fingerprint_bridge.Http2.Direction.Verbatim.{bytes_of, wire}
use fingerprint_bridge.Http2.Direction.Gathered.{IsByte, HasBytes, Reads, IsGathered, gather_lem}

split_payload-bytes :
    (padded : Bool) (k : ℕ) (b : List ℕ) (x : List ℕ × List ℕ × List ℕ)
    → All IsByte b
    → split_payload padded k b ≡ ok x
    → All IsByte x.2
unfolding split_payload
split_payload-bytes padded k b x bytes e =
    let (u, some_pad, e₁) =
      >>=-eq-ok (ensure (not padded || not (is_empty b)) "missing pad length") _ e in
    let pad : ℕ = if padded then byte_at b 0 else 0 in
    let start : ℕ = (if padded then 1 else 0) + k in
    let (v, room, e₂) =
      >>=-eq-ok (ensure (leb (start + pad) (length b)) "bad HEADERS padding/priority") _ e₁ in
    subst (λ (y : List ℕ × List ℕ × List ℕ). All IsByte y.2) (ok-injective e₂)
      (All-take IsByte ((length b - pad) - start) (drop start b) (All-drop IsByte start b bytes))

header_parts-bytes :
    (f : Frame) (x : List ℕ × List ℕ × List ℕ)
    → All IsByte f.payload
    → header_parts f ≡ ok x
    → All IsByte x.2
unfolding header_parts
header_parts-bytes f x bytes e =
    let (u, kind, e₁) =
      >>=-eq-ok (ensure (f.kind == 1 && not (low_bits f.stream 31 == 0)) "invalid HEADERS") _ e in
    split_payload-bytes (bit_set f.flags 3) (if bit_set f.flags 5 then 5 else 0) f.payload x bytes
      e₁

payloads-bytes : (fs : List Frame) → All HasBytes fs → All IsByte (payloads fs)
payloads-bytes [] h = tt
payloads-bytes (f ∷ fs) h = All-append IsByte f.payload (payloads fs) h.0.1 (payloads-bytes fs h.1)

flags_small : (fs : List Frame) → All HasBytes fs → All (λ (f : Frame). f.flags < 256) fs
flags_small [] h = tt
flags_small (f ∷ fs) h = (h.0.0, flags_small fs h.1)

write_all-wire : (fs : List Frame) (bytes : List ℕ) → write_all fs ≡ ok bytes → bytes ≡ wire fs
unfolding write_all
write_all-wire [] bytes e = sym (ok-injective e)
write_all-wire (f ∷ fs) bytes e =
    let (first, w, e₁) = >>=-eq-ok (write f) _ e in
    let (later, ws, e₂) = >>=-eq-ok (write_all fs) _ e₁ in
    sym (ok-injective e₂)
    ∙ ap₂ (λ (a b : List ℕ). a ++ b) (sym (ap bytes_of w)) (write_all-wire fs later ws)

module _ (crate : HpackCrate) (table_of : crate.Decoder → Table) (parse_url : List ℕ → Result Url)
    (m : Mapping) (response : Bool) where
  -- The frames that are taken, the frames that are sent, and what their header blocks mean.
  pub record IsPassed (limits : PeerLimits) (frame : Frame) (r : List ℕ) (d d' : Direction crate)
      (r' : List ℕ) : Type 0 where
    pub frames : List Frame
    pub block : List ℕ
    pub out : List Frame
    pub encoded : List ℕ
    pub taken : Reads r frames r'
    pub ends : OnlyLastEnds (frame ∷ frames)
    pub carried : header_block (frame ∷ frames) ≡ ok block
    pub received : IsReceived crate table_of parse_url m response d.decoder d'.decoder block encoded
    pub resent : header_block out ≡ ok encoded
    pub fits : All (λ f. length f.payload ≤ limits.frame) out
    pub out_ends : OnlyLastEnds out
    pub sent : d'.sent ≡ d.sent ++ wire out
    pub other : d'.other ≡ d.other
    pub valid : IsValid d'.decoder.outbound
    pub left : All IsByte r'

  module _ (sixty_one : length crate.static_table ≡ 61)
      (decodes : (d d' : crate.Decoder) (bytes : List ℕ) (hs : List Header)
        → crate.decode d bytes ≡ ok (d', hs)
        → Block crate.static_table (table_of d) bytes hs (table_of d')) where
    passed :
        (limits : PeerLimits) (frame : Frame) (r : List ℕ) (d : Direction crate)
        (parts : List ℕ × List ℕ × List ℕ) (block : List ℕ) (frames : List Frame) (r' : List ℕ)
        (decoder : HeaderRewriter crate) (encoded : List ℕ) (out : List Frame) (written : List ℕ)
        → HasBytes frame
        → All IsByte r
        → IsValid d.decoder.outbound
        → d.decoder.outbound.limit ≤ 65536
        → header_parts frame ≡ ok parts
        → gather 1024 frame.stream parts.2 frame.flags [] 1 r ≡ ok (block, frames, r')
        → rewrite crate parse_url m response d.decoder block limits.table ≡ ok (decoder, encoded)
        → reframe (frame ∷ frames) encoded limits.frame ≡ ok out
        → write_all out ≡ ok written
        → IsPassed limits frame r d (record d { decoder = decoder; sent = d.sent ++ written }) r'
    passed limits frame r d parts block frames r' decoder encoded out written octets bytes valid
          small parted gathered rewritten reframed wrote =
        let g : IsGathered frame.stream parts.2 frame.flags [] r block frames r' =
          gather_lem 1024 frame.stream parts.2 frame.flags [] 1 r block frames r' bytes gathered in
        let same_frames : g.more ≡ frames = sym g.frames_so in
        let part_bytes : All IsByte parts.2 = header_parts-bytes frame parts octets.1 parted in
        let block_bytes : All IsByte block = subst (All IsByte) (sym g.block_so) (
          All-append IsByte parts.2 (payloads g.more) part_bytes
            (payloads-bytes g.more g.octets)) in
        let flags : All (λ (f : Frame). f.flags < 256) (frame ∷ frames) = (
          octets.0,
          subst (All (λ (f : Frame). f.flags < 256)) same_frames (flags_small g.more g.octets),
        ) in
        let (resent, fits, out_ends) =
          reframe_carries frame frames out encoded limits.frame flags reframed in
        record {
          frames = frames;
          block = block;
          out = out;
          encoded = encoded;
          taken = subst (λ (fs : List Frame). Reads r fs r') same_frames g.read_so;
          ends =
              subst (λ (fs : List Frame). OnlyLastEnds (frame ∷ fs)) same_frames
                (g.ends frame refl);
          carried = rw parted (
              ap (λ (fs : List Frame). ok (parts.2 ++ payloads fs)) (sym same_frames)
              ∙ ap ok (sym g.block_so));
          received =
              rewrite_received crate table_of parse_url m response sixty_one decodes block
                block_bytes limits.table d.decoder decoder encoded valid small rewritten;
          resent = resent;
          fits = fits;
          out_ends = out_ends;
          sent = ap (λ (l : List ℕ). d.sent ++ l) (write_all-wire out written wrote);
          other = refl;
          valid =
              (rewrite_within crate parse_url m response block limits.table d.decoder decoder
                encoded valid rewritten).0;
          left = g.left;
        }

    pub handle_headers_received :
        (limits : PeerLimits) (frame : Frame) (r : List ℕ) (d d' : Direction crate) (r' : List ℕ)
        → HasBytes frame
        → All IsByte r
        → IsValid d.decoder.outbound
        → d.decoder.outbound.limit ≤ 65536
        → handle_headers crate parse_url m response limits frame r d ≡ ok (d', r')
        → IsPassed limits frame r d d' r'
    unfolding handle_headers
    handle_headers_received limits frame r d d' r' octets bytes valid small e =
        let (parts, parted, e₁) = >>=-eq-ok (header_parts frame) _ e in
        let (got, gathered, e₂) =
          >>=-eq-ok (gather 1024 frame.stream parts.2 frame.flags [] 1 r) _ e₁ in
        let (x, rewritten, e₃) =
          >>=-eq-ok (rewrite crate parse_url m response d.decoder got.0 limits.table) _ e₂ in
        let (out, reframed, e₄) = >>=-eq-ok (reframe (frame ∷ got.1) x.1 limits.frame) _ e₃ in
        let (written, wrote, e₅) = >>=-eq-ok (write_all out) _ e₄ in
        subst (λ (y : Direction crate × List ℕ). IsPassed limits frame r d y.0 y.1)
          (ok-injective e₅)
          (passed limits frame r d parts got.0 got.1 got.2 x.0 x.1 out written octets bytes valid
            small parted gathered rewritten reframed wrote)
