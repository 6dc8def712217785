-- ===== src/Http2/Frame.antt =====
-- `Frame::read` and `Frame::write` of src/h2.rs. A stream is the list of the bytes still to come,
-- with the end of the stream behind the last one.
pub mod RoundTrip
use fingerprint_bridge.Base.{
  ℕ, ◌+◌, ◌*◌, ◌/◌, ◌%◌, ◌^◌, List, [], ◌∷◌, ◌++◌, Option, none, some, leb, if◌then◌else◌, length,
  take, drop, Result, ok, err, ◌>>=◌, ◌>>◌, ensure,
}
use fingerprint_bridge.Base.Bits.{shr}
use fingerprint_bridge.Hpack.Rewriter.{max_block}

pub record Frame : Type 0 where
  pub kind : ℕ
  pub flags : ℕ
  pub stream : ℕ
  pub payload : List ℕ

-- `from_be_bytes`
abbrev pub be16 : ℕ → ℕ → ℕ
be16 a b = a * 256 + b

abbrev pub be24 : ℕ → ℕ → ℕ → ℕ
be24 a b c = (a * 256 + b) * 256 + c

abbrev pub be32 : ℕ → ℕ → ℕ → ℕ → ℕ
be32 a b c d = ((a * 256 + b) * 256 + c) * 256 + d

-- `read_exact` of `n` bytes.
unfoldable pub read_exact : ℕ → List ℕ → Result (List ℕ × List ℕ)
read_exact n r = if leb n (length r) then ok (take n r, drop n r) else err "early eof"

-- The payload of a frame with the header read, and what follows the frame.
unfoldable pub read_payload : ℕ → ℕ → ℕ → ℕ → List ℕ → Result (Option (Frame × List ℕ))
unfolding read_exact
read_payload len kind flags stream r = do
  ensure (leb len max_block) "frame exceeds configured 1 MiB limit"
  (payload, rest) ← read_exact len r
  ok (some (record { kind = kind; flags = flags; stream = stream; payload = payload }, rest))

-- `none` at the end of the stream.
unfoldable pub read : List ℕ → Result (Option (Frame × List ℕ))
unfolding read_payload
read [] = ok none
read (h₀ ∷ h₁ ∷ h₂ ∷ h₃ ∷ h₄ ∷ h₅ ∷ h₆ ∷ h₇ ∷ h₈ ∷ r) =
    read_payload (be24 h₀ h₁ h₂) h₃ h₄ (be32 h₅ h₆ h₇ h₈) r
read _ = err "early eof"

-- What `write` sends.
unfoldable pub write : Frame → Result (List ℕ)
write f = do
  let n = length f.payload
  ensure (leb n 0xffffff) "oversized frame"
  ok (
      shr n 16 % 256
      ∷ shr n 8 % 256
      ∷ n % 256
      ∷ f.kind
      ∷ f.flags
      ∷ shr f.stream 24 % 256
      ∷ shr f.stream 16 % 256
      ∷ shr f.stream 8 % 256
      ∷ f.stream % 256
      ∷ f.payload)
