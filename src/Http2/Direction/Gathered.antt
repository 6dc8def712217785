-- ===== src/Http2/Direction/Gathered.antt =====
-- The frames that `gather` takes from the stream.
use mathlib.Core.Path.{subst}
use fingerprint_bridge.Base.{
  ℕ, zero, suc, ◌+◌, ◌<◌, ◌≡◌, refl, sym, ap, ◌∙◌, List, [], ◌∷◌, ◌++◌, append-nil, append_assoc,
  true, false, ◌&&◌, ◌==◌, leb, length, take, drop, All, All-take, All-drop, Option, none, some,
  Result, ok, err, ◌>>=◌, ◌>>◌, >>=-eq-ok, ensure, ensure-eq-ok, ok-injective, Bool-cases, inl, inr,
}
use fingerprint_bridge.Base.Bits.{bit_set}
use fingerprint_bridge.Hpack.Rewriter.{max_block}
use fingerprint_bridge.Http2.Frame.{Frame, be24, be32, read, read_payload, read_exact}
use fingerprint_bridge.Http2.Reframe.Carries.{OnlyLastEnds}
use fingerprint_bridge.Http2.Reframe.Payloads.{payloads}
use fingerprint_bridge.Http2.Direction.{gather}

abbrev pub IsByte : ℕ → Type 0
IsByte b = b < 256

-- A frame that was read from a stream of bytes.
abbrev pub HasBytes : Frame → Type 0
HasBytes f = (f.flags < 256) × All IsByte f.payload

pub read_exact-bytes :
    (n : ℕ) (r : List ℕ) (x : List ℕ × List ℕ)
    → All IsByte r
    → read_exact n r ≡ ok x
    → All IsByte x.0 × All IsByte x.1
unfolding read_exact
read_exact-bytes n r x bytes e = elim (Bool-cases (leb n (length r))) [
  | inl there ↦
      let e' : ok (take n r, drop n r) ≡ ok x = rw there at e in
      subst (λ (y : List ℕ × List ℕ). All IsByte y.0 × All IsByte y.1) (ok-injective e')
        (All-take IsByte n r bytes, All-drop IsByte n r bytes)
  | inr short ↦
      let refused : Result (List ℕ × List ℕ) = err "early eof" in
      let e' : refused ≡ ok x = rw short at e in cc
]

read_payload-bytes :
    (n kind flags stream : ℕ) (r rest : List ℕ) (f : Frame)
    → flags < 256
    → All IsByte r
    → read_payload n kind flags stream r ≡ ok (some (f, rest))
    → HasBytes f × All IsByte rest
unfolding read_payload
read_payload-bytes n kind flags stream r rest f small bytes e =
    let (u, fits, e₁) =
      >>=-eq-ok (ensure (leb n max_block) "frame exceeds configured 1 MiB limit") _ e in
    let (x, taken, e₂) = >>=-eq-ok (read_exact n r) _ e₁ in
    let (payload, left) = read_exact-bytes n r x bytes taken in
    let made : Frame = record { kind = kind; flags = flags; stream = stream; payload = x.0 } in
    let found : some (made, x.1) ≡ some (f, rest) = ok-injective e₂ in
    let same : (made, x.1) ≡ (f, rest) = cc in
    subst (λ (y : Frame × List ℕ). HasBytes y.0 × All IsByte y.1) same ((small, payload), left)

pub read-bytes :
    (r rest : List ℕ) (f : Frame)
    → All IsByte r
    → read r ≡ ok (some (f, rest))
    → HasBytes f × All IsByte rest
unfolding read
read-bytes [] rest f bytes e = cc
read-bytes (a ∷ []) rest f bytes e = cc
read-bytes (a ∷ b ∷ []) rest f bytes e = cc
read-bytes (a ∷ b ∷ c ∷ []) rest f bytes e = cc
read-bytes (a ∷ b ∷ c ∷ d ∷ []) rest f bytes e = cc
read-bytes (a ∷ b ∷ c ∷ d ∷ g ∷ []) rest f bytes e = cc
read-bytes (a ∷ b ∷ c ∷ d ∷ g ∷ h ∷ []) rest f bytes e = cc
read-bytes (a ∷ b ∷ c ∷ d ∷ g ∷ h ∷ i ∷ []) rest f bytes e = cc
read-bytes (a ∷ b ∷ c ∷ d ∷ g ∷ h ∷ i ∷ j ∷ []) rest f bytes e = cc
read-bytes (a ∷ b ∷ c ∷ d ∷ g ∷ h ∷ i ∷ j ∷ k ∷ r) rest f bytes e =
    read_payload-bytes (be24 a b c) d g (be32 h i j k) r rest f (bytes.1.1.1.1.0)
      (bytes.1.1.1.1.1.1.1.1.1) e

-- The frames as they are read one after the other.
abbrev pub Reads : List ℕ → List Frame → List ℕ → Type 0
Reads r [] r' = r ≡ r'
Reads r (f ∷ fs) r' = (mid : List ℕ) × (read r ≡ ok (some (f, mid))) × Reads mid fs r'

pub record IsGathered (stream : ℕ) (block : List ℕ) (flags : ℕ) (frames : List Frame) (r : List ℕ)
    (block' : List ℕ) (frames' : List Frame) (r' : List ℕ) : Type 0 where
  pub more : List Frame
  pub frames_so : frames' ≡ frames ++ more
  pub block_so : block' ≡ block ++ payloads more
  pub read_so : Reads r more r'
  pub same_stream : All (λ (f : Frame). (f.kind == 9 && f.stream == stream) ≡ true) more
  pub octets : All HasBytes more
  pub left : All IsByte r'
  pub ends : (f : Frame) → f.flags ≡ flags → OnlyLastEnds (f ∷ more)

abbrev pub next_frame :
    ℕ
    → ℕ
    → List ℕ
    → List Frame
    → ℕ
    → Option (Frame × List ℕ)
    → Result (List ℕ × List Frame × List ℕ)
next_frame fuel stream block frames count none = err "truncated CONTINUATION"
next_frame fuel stream block frames count (some (next, r)) = do
  ensure (next.kind == 9 && next.stream == stream) "interleaved CONTINUATION"
  ensure (leb (length block + length next.payload) max_block) "header block too large"
  ensure (leb (count + 1) 1024) "too many CONTINUATION frames"
  gather fuel stream (block ++ next.payload) next.flags (frames ++ next ∷ []) (count + 1) r

pub gather_lem :
    (fuel stream : ℕ) (block : List ℕ) (flags : ℕ) (frames : List Frame) (count : ℕ)
    (r block' : List ℕ) (frames' : List Frame) (r' : List ℕ)
    → All IsByte r
    → gather fuel stream block flags frames count r ≡ ok (block', frames', r')
    → IsGathered stream block flags frames r block' frames' r'
unfolding gather
gather_lem zero stream block flags frames count r block' frames' r' bytes e = cc
gather_lem (suc fuel) stream block flags frames count r block' frames' r' bytes e =
    elim (Bool-cases (bit_set flags 2)) [
      | inl last ↦
          let e' : ok (block, frames, r) ≡ ok (block', frames', r') = rw last at e in
          subst
            (λ (x : List ℕ × List Frame × List ℕ).
              IsGathered stream block flags frames r x.0 x.1 x.2)
            (ok-injective e')
            (record {
              more = [];
              frames_so = sym (append-nil frames);
              block_so = sym (append-nil block);
              read_so = refl;
              same_stream = tt;
              octets = tt;
              left = bytes;
              ends = λ f same. ap (λ (c : ℕ). bit_set c 2) same ∙ last;
            })
      | inr unfinished ↦
          let e' : (read r >>= next_frame fuel stream block frames count)
              ≡ ok (block', frames', r') =
            rw unfinished at e in
          let (found, was, e₁) =
            >>=-eq-ok (read r) (next_frame fuel stream block frames count) e' in
          go
            (λ next mid left e₄.
              gather_lem fuel stream (block ++ next.payload) next.flags (frames ++ next ∷ [])
                (count + 1) mid block' frames' r' left e₄)
            unfinished found was e₁
    ]
  where
    go :
        ((next : Frame) (mid : List ℕ)
          → All IsByte mid
          → gather fuel stream
              (block ++ next.payload)
              next.flags
              (frames ++ next ∷ [])
              (count + 1)
              mid
            ≡ ok (block', frames', r')
          → IsGathered stream
              (block ++ next.payload)
              next.flags
              (frames ++ next ∷ [])
              mid
              block'
              frames'
              r')
        → bit_set flags 2 ≡ false
        → (found : Option (Frame × List ℕ)) → read r ≡ ok found
        → next_frame fuel stream block frames count found ≡ ok (block', frames', r')
        → IsGathered stream block flags frames r block' frames' r'
    go ih unfinished none was e₁ = cc
    go ih unfinished (some (next, mid)) was e₁ =
        let (u, kind, e₂) =
          >>=-eq-ok (ensure (next.kind == 9 && next.stream == stream) "interleaved CONTINUATION") _
            e₁ in
        let (v, room, e₃) =
          >>=-eq-ok
            (ensure (leb (length block + length next.payload) max_block) "header block too large") _
            e₂ in
        let (w, few, e₄) =
          >>=-eq-ok (ensure (leb (count + 1) 1024) "too many CONTINUATION frames") _ e₃ in
        let (has, left) = read-bytes r mid next bytes was in
        let later = ih next mid left e₄ in
        record {
          more = next ∷ later.more;
          frames_so = later.frames_so ∙ append_assoc frames (next ∷ []) later.more;
          block_so = later.block_so ∙ append_assoc block next.payload (payloads later.more);
          read_so = (mid, was, later.read_so);
          same_stream = (ensure-eq-ok _ _ kind, later.same_stream);
          octets = (has, later.octets);
          left = later.left;
          ends = λ f same. (ap (λ (c : ℕ). bit_set c 2) same ∙ unfinished, later.ends next refl);
        }
