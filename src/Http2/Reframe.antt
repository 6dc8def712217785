-- ===== src/Http2/Reframe.antt =====
-- `header_parts` and `reframe` of src/h2.rs. What is left of `encoded[pos..]` is a list of its own.
pub mod Payloads
pub mod Parts
pub mod Carries
use fingerprint_bridge.Base.{
  ℕ, zero, suc, ◌+◌, ◌-◌, ◌%◌, ◌^◌, List, [], ◌∷◌, ◌++◌, Bool, true, false, not, ◌&&◌, ◌||◌, ◌==◌,
  leb, min, length, take, drop, if◌then◌else◌, bit_and, bit_or, Result, ok, err, ◌>>=◌, ◌>>◌,
  ensure,
}
use fingerprint_bridge.Base.Bits.{bit_set, low_bits}
use fingerprint_bridge.Std.Ascii.{is_empty}
use fingerprint_bridge.Http2.Frame.{Frame}
use fingerprint_bridge.Hpack.Rewriter.{slice, byte_at}

-- The pad length, the priority and the padding around a header block fragment, in a payload with a
-- pad length or without, and with `k` bytes of priority.
unfoldable pub split_payload : Bool → ℕ → List ℕ → Result (List ℕ × List ℕ × List ℕ)
split_payload padded k b = do
  ensure (not padded || not (is_empty b)) "missing pad length"
  let pad = if padded then byte_at b 0 else 0
  let start = (if padded then 1 else 0) + k
  ensure (leb (start + pad) (length b)) "bad HEADERS padding/priority"
  ok (take start b, drop (length b - pad) b, slice b start (length b - pad))

unfoldable pub header_parts : Frame → Result (List ℕ × List ℕ × List ℕ)
header_parts frame = do
  ensure (frame.kind == 1 && not (low_bits frame.stream 31 == 0)) "invalid HEADERS"
  split_payload (bit_set frame.flags 3) (if bit_set frame.flags 5 then 5 else 0) frame.payload

-- One original frame: `prefix` and `padding` are empty for all but the first.
abbrev pub refill : Frame → List ℕ → List ℕ → List ℕ → Frame
refill frame prefix part padding = record frame {
  flags = bit_and frame.flags 0xfb;
  payload = prefix ++ (part ++ padding);
}

-- The loop over the CONTINUATION frames, with the capacity of a frame as the loop computes it: the
-- last one may grow up to the limit.
unfoldable pub continuations : ℕ → ℕ → List Frame → List ℕ → Result (List Frame × List ℕ)
continuations stream max_frame [] left = ok ([], left)
continuations stream max_frame (frame ∷ frames) left = do
  ensure (leb (length frame.payload) max_frame) "header frame exceeds peer limit"
  ensure (frame.kind == 9 && frame.stream == stream) "invalid CONTINUATION"
  let cap = if is_empty frames then max_frame else length frame.payload
  let n = min cap (length left)
  (out, left') ← continuations stream max_frame frames (drop n left)
  ok (refill frame [] (take n left) [] ∷ out, left')

-- `encoded[pos..].chunks(max_frame)`, on fuel: each round takes a byte at least.
unfoldable pub chunks : ℕ → ℕ → ℕ → List ℕ → List Frame
chunks zero stream max_frame left = []
chunks (suc fuel) stream max_frame left =
    let more = chunks fuel stream max_frame (drop max_frame left) in
    if is_empty left
    then []
    else record { kind = 9; flags = 0; stream = stream; payload = take max_frame left } ∷ more

-- `out.last_mut().unwrap().flags |= 4`
unfoldable pub end_headers : List Frame → List Frame
end_headers [] = []
end_headers (f ∷ []) = record f { flags = bit_or f.flags 4 } ∷ []
end_headers (f ∷ g ∷ fs) = f ∷ end_headers (g ∷ fs)

unfoldable pub reframe : List Frame → List ℕ → ℕ → Result (List Frame)
reframe original encoded max_frame = do
  ensure (leb 16384 max_frame && leb max_frame 0xffffff) "invalid frame limit"
  elim original [
    | [] ↦ err "missing HEADERS"
    | first ∷ frames ↦ (do
      (prefix, padding, ignored) ← header_parts first
      ensure (leb (length first.payload) max_frame) "header frame exceeds peer limit"
      let overhead = length prefix + length padding
      let cap = (if is_empty frames then max_frame else length first.payload) - overhead
      let n = min cap (length encoded)
      (out, left) ← continuations first.stream max_frame frames (drop n encoded)
      ok (
          end_headers (
            refill first prefix (take n encoded) padding
            ∷ (out ++ chunks (length left) first.stream max_frame left))))
  ]
