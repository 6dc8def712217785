-- ===== src/Http2/Frame/RoundTrip.antt =====
-- A frame that was written is read back.
use fingerprint_bridge.Base.{
  ℕ, ◌/◌, ◌%◌, ◌^◌, ◌≤◌, ◌<◌, ◌≡◌, refl, true, ap, List, ◌∷◌, ◌++◌, some, length, length-append,
  take-append, drop-append, leb, le→leb, arith, ok, ◌>>=◌, Bool, ensure,
}
use fingerprint_bridge.Hpack.Rewriter.{max_block}
use fingerprint_bridge.Http2.Frame.{Frame, be24, be32, read_payload, read, write}

-- The stream identifier has 32 bits.
abbrev pub IsFrame : Frame → Type 0
IsFrame f = (f.stream < 2 ^ 32) × (length f.payload ≤ max_block)

read_payload-append :
    (n kind flags stream : ℕ) (payload rest : List ℕ)
    → n ≡ length payload
    → length payload ≤ max_block
    → read_payload n kind flags stream (payload ++ rest)
      ≡ ok (some (record { kind = kind; flags = flags; stream = stream; payload = payload }, rest))
unfolding read_payload
read_payload-append n kind flags stream payload rest e h =
    let small : leb (length payload) max_block ≡ true = le→leb _ _ h in
    let there : leb (length payload) (length (payload ++ rest)) ≡ true =
      le→leb _ _ (omega (arith, length-append payload rest)) in
    rw e (rw small (rw there (rw take-append (rw drop-append refl))))

-- A frame with a 32-bit stream identifier and a payload of at most 1 MiB is written, and `read` then
-- finds that frame, with its reserved bit, and leaves whatever follows it.
pub read-write :
    (f : Frame) (rest : List ℕ)
    → IsFrame f
    → (bytes : List ℕ) × (write f ≡ ok bytes) × (read (bytes ++ rest) ≡ ok (some (f, rest)))
unfolding read write
read-write f rest (hs, hp) =
    let n : ℕ = length f.payload in
    let small : leb n 0xffffff ≡ true = le→leb _ _ (omega arith) in
    let len : be24 (n / 2 ^ 16 % 256) (n / 2 ^ 8 % 256) (n % 256) ≡ n = omega arith in
    let id : be32 (f.stream / 2 ^ 24 % 256) (f.stream / 2 ^ 16 % 256) (f.stream / 2 ^ 8 % 256)
          (f.stream % 256)
        ≡ f.stream =
      omega arith in
    (
      _,
      ap
          (λ (b : Bool). ensure b "oversized frame" >>= λ u. ok (
            n / 2 ^ 16 % 256
            ∷ n / 2 ^ 8 % 256
            ∷ n % 256
            ∷ f.kind
            ∷ f.flags
            ∷ f.stream / 2 ^ 24 % 256
            ∷ f.stream / 2 ^ 16 % 256
            ∷ f.stream / 2 ^ 8 % 256
            ∷ f.stream % 256
            ∷ f.payload))
          small,
      rw id (read_payload-append _ f.kind f.flags f.stream f.payload rest len hp),
    )
