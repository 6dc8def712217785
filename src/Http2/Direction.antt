-- ===== src/Http2/Direction.antt =====
-- `PeerLimits` and `direction` of src/h2.rs: one direction of the bridge as a function of the bytes
-- that come in. The other direction writes the limits that this one loads: `limits k` is what the loads
-- see at the `k`-th frame.
pub mod Verbatim
pub mod Cases
pub mod Shorter
pub mod Gathered
pub mod Received
use fingerprint_bridge.Base.{
  ℕ, zero, suc, ◌+◌, List, [], ◌∷◌, ◌++◌, Bool, true, false, not, ◌&&◌, ◌||◌, ◌==◌, leb,
  if◌then◌else◌, length, Option, none, some, Result, ok, err, ◌>>=◌, ◌>>◌, ensure,
}
use fingerprint_bridge.Base.Bits.{bit_set}
use fingerprint_bridge.Base.Bytes.{text, bytes_eq}
use fingerprint_bridge.Rewrite.Mapping.{Url, Mapping}
use fingerprint_bridge.Hpack.Rewriter.{HpackCrate, HeaderRewriter, new, rewrite, max_block}
use fingerprint_bridge.Http2.Frame.{Frame, read, write, read_exact}
use fingerprint_bridge.Http2.Settings.{settings}
use fingerprint_bridge.Http2.Reframe.{header_parts, reframe}

pub record PeerLimits : Type 0 where
  pub table : ℕ
  pub frame : ℕ

-- `PeerLimits::new`
abbrev pub new_limits : PeerLimits
new_limits = record { table = 4096; frame = 16384 }

abbrev pub preface : List ℕ
preface = text "PRI * HTTP/2.0\r\n\r\nSM\r\n\r\n"

-- `for (id, value) in settings(&frame)?`
unfoldable pub apply_settings : List (ℕ × ℕ) → PeerLimits → Result PeerLimits
apply_settings [] other = ok other
apply_settings ((id, value) ∷ entries) other =
    if id == 1
    then apply_settings entries (record other { table = value })
    else if id == 5
    then (do
      ensure (leb 16384 value && leb value 0xffffff) "invalid SETTINGS_MAX_FRAME_SIZE"
      apply_settings entries (record other { frame = value }))
    else apply_settings entries other

-- `f.write(&mut w)` for each frame.
unfoldable pub write_all : List Frame → Result (List ℕ)
write_all [] = ok []
write_all (f ∷ fs) = do bytes ← write f; more ← write_all fs; ok (bytes ++ more)

-- The frames of a block: the block so far, the flags of the last frame, and the frames behind the
-- first. At most 1024 frames are taken, which bounds the rounds.
unfoldable pub gather :
    ℕ → ℕ → List ℕ → ℕ → List Frame → ℕ → List ℕ → Result (List ℕ × List Frame × List ℕ)
gather zero stream block flags frames count r = err "too many CONTINUATION frames"
gather (suc fuel) stream block flags frames count r =
    let more = (do
      found ← read r
      elim found [
        | none ↦ err "truncated CONTINUATION"
        | some (next, r') ↦ (do
          ensure (next.kind == 9 && next.stream == stream) "interleaved CONTINUATION"
          ensure (leb (length block + length next.payload) max_block) "header block too large"
          ensure (leb (count + 1) 1024) "too many CONTINUATION frames"
          gather fuel stream (block ++ next.payload) next.flags (frames ++ next ∷ []) (count + 1)
              r')
      ]) in
    if bit_set flags 2 then ok (block, frames, r) else more

module _ (crate : HpackCrate) where
  pub record Direction : Type 0 where
    pub decoder : HeaderRewriter crate
    pub other : PeerLimits
    pub sent : List ℕ

  abbrev pub initial : Direction
  initial = record { decoder = new crate; other = new_limits; sent = [] }

module _ (crate : HpackCrate) (parse_url : List ℕ → Result Url) (m : Mapping)
    (response : Bool) where
  -- A HEADERS frame with its CONTINUATION frames.
  unfoldable pub handle_headers :
      PeerLimits → Frame → List ℕ → Direction crate → Result (Direction crate × List ℕ)
  handle_headers limits frame r d = do
    (prefix, padding, part) ← header_parts frame
    (block, frames, r') ← gather 1024 frame.stream part frame.flags [] 1 r
    (decoder, encoded) ← rewrite crate parse_url m response d.decoder block limits.table
    out ← reframe (frame ∷ frames) encoded limits.frame
    bytes ← write_all out
    ok (record d { decoder = decoder; sent = d.sent ++ bytes }, r')

  -- `match frame.kind`
  unfoldable pub handle :
      PeerLimits → Frame → List ℕ → Direction crate → Result (Direction crate × List ℕ)
  handle limits frame r d =
      if frame.kind == 4
      then (do
        entries ← settings frame
        other ← apply_settings entries d.other
        bytes ← write frame
        ok (record d { other = other; sent = d.sent ++ bytes }, r))
      else if frame.kind == 1
      then handle_headers limits frame r d
      else if frame.kind == 5
      then err "HTTP/2 server push unsupported"
      else if frame.kind == 9
      then err "unexpected CONTINUATION"
      else do bytes ← write frame; ok (record d { sent = d.sent ++ bytes }, r)

  -- `while let Some(frame) = Frame::read(&mut r).await?`, on fuel: a frame takes bytes of the stream.
  unfoldable pub frames_loop :
      ℕ → (ℕ → PeerLimits) → ℕ → List ℕ → Direction crate → Result (Direction crate)
  frames_loop zero limits k r d = elim r [ [] ↦ ok d | c ∷ rest ↦ err "out of fuel" ]
  frames_loop (suc fuel) limits k r d = do
    found ← read r
    elim found [
      | none ↦ ok d
      | some (frame, r') ↦ (do
        (d', r'') ← handle (limits k) frame r' d
        frames_loop fuel limits (k + 1) r'' d')
    ]

  -- The connection preface, where the direction is the client's.
  unfoldable pub open_direction : List ℕ → Result (Direction crate × List ℕ)
  open_direction r = do
    let d = initial crate
    if response then ok (d, r) else (do
      (start, rest) ← read_exact 24 r
      ensure (bytes_eq start preface) "invalid HTTP/2 preface"
      ok (record d { sent = start }, rest))

  -- The bytes sent, with the limits that this direction stored.
  unfoldable pub direction : (ℕ → PeerLimits) → List ℕ → Result (Direction crate)
  direction limits r = do (d, rest) ← open_direction r; frames_loop (length rest) limits 0 rest d
