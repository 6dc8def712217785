-- ===== src/Http2/Direction/Shorter.antt =====
-- A direction only ever takes bytes from the stream.
use mathlib.Core.Path.{subst}
use fingerprint_bridge.Base.{
  ℕ, zero, suc, ◌+◌, ◌≤◌, ◌<◌, ◌≡◌, List, [], ◌∷◌, ◌++◌, Bool, false, ◌&&◌, ◌==◌, leb, length,
  length-drop, take, drop, Option, none, some, Result, ok, err, ◌>>=◌, >>=-eq-ok, ensure,
  ok-injective, arith, Bool-cases, inl, inr,
}
use fingerprint_bridge.Base.Bits.{bit_set}
use fingerprint_bridge.Base.Bytes.{bytes_eq}
use fingerprint_bridge.Rewrite.Mapping.{Url, Mapping}
use fingerprint_bridge.Hpack.Rewriter.{HpackCrate, max_block, rewrite}
use fingerprint_bridge.Http2.Frame.{Frame, be24, be32, read, read_exact, read_payload}
use fingerprint_bridge.Http2.Reframe.{header_parts, reframe}
use fingerprint_bridge.Http2.Direction.{
  PeerLimits, Direction, gather, write_all, handle_headers, handle, open_direction, preface,
}
use fingerprint_bridge.Http2.Direction.Cases.{
  Handled, by_headers, by_settings, passed_on, handle-Handled,
}
use fingerprint_bridge.Http2.Direction.Gathered.{next_frame}

read_exact-length :
    (n : ℕ) (r : List ℕ) (x : List ℕ × List ℕ) → read_exact n r ≡ ok x → length x.1 ≤ length r
unfolding read_exact
read_exact-length n r x e = elim (Bool-cases (leb n (length r))) [
  | inl there ↦
      let e' : ok (take n r, drop n r) ≡ ok x = rw there at e in
      subst (λ (y : List ℕ × List ℕ). length y.1 ≤ length r) (ok-injective e')
        (omega (arith, length-drop n r))
  | inr short ↦
      let refused : Result (List ℕ × List ℕ) = err "early eof" in
      let e' : refused ≡ ok x = rw short at e in cc
]

read_payload-length :
    (n kind flags stream : ℕ) (r rest : List ℕ) (f : Frame)
    → read_payload n kind flags stream r ≡ ok (some (f, rest))
    → length rest ≤ length r
unfolding read_payload
read_payload-length n kind flags stream r rest f e =
    let (u, fits, e₁) =
      >>=-eq-ok (ensure (leb n max_block) "frame exceeds configured 1 MiB limit") _ e in
    let (x, taken, e₂) = >>=-eq-ok (read_exact n r) _ e₁ in
    let made : Frame = record { kind = kind; flags = flags; stream = stream; payload = x.0 } in
    let found : some (made, x.1) ≡ some (f, rest) = ok-injective e₂ in
    let same : x.1 ≡ rest = (cc found) in
    subst (λ (l : List ℕ). length l ≤ length r) same (read_exact-length n r x taken)

pub read-length :
    (r rest : List ℕ) (f : Frame) → read r ≡ ok (some (f, rest)) → length rest < length r
unfolding read
read-length [] rest f e = cc
read-length (a ∷ []) rest f e = cc
read-length (a ∷ b ∷ []) rest f e = cc
read-length (a ∷ b ∷ c ∷ []) rest f e = cc
read-length (a ∷ b ∷ c ∷ d ∷ []) rest f e = cc
read-length (a ∷ b ∷ c ∷ d ∷ g ∷ []) rest f e = cc
read-length (a ∷ b ∷ c ∷ d ∷ g ∷ h ∷ []) rest f e = cc
read-length (a ∷ b ∷ c ∷ d ∷ g ∷ h ∷ i ∷ []) rest f e = cc
read-length (a ∷ b ∷ c ∷ d ∷ g ∷ h ∷ i ∷ j ∷ []) rest f e = cc
read-length (a ∷ b ∷ c ∷ d ∷ g ∷ h ∷ i ∷ j ∷ k ∷ r) rest f e =
    omega (arith, read_payload-length (be24 a b c) d g (be32 h i j k) r rest f e)

gather-length :
    (fuel stream : ℕ) (block : List ℕ) (flags : ℕ) (frames : List Frame) (count : ℕ) (r : List ℕ)
    (x : List ℕ × List Frame × List ℕ)
    → gather fuel stream block flags frames count r ≡ ok x
    → length x.2 ≤ length r
unfolding gather
gather-length zero stream block flags frames count r x e = cc
gather-length (suc fuel) stream block flags frames count r x e =
    elim (Bool-cases (bit_set flags 2)) [
      | inl last ↦
          let e' : ok (block, frames, r) ≡ ok x = rw last at e in
          subst (λ (y : List ℕ × List Frame × List ℕ). length y.2 ≤ length r) (ok-injective e')
            (omega arith)
      | inr unfinished ↦
          let e' : (read r >>= next_frame fuel stream block frames count) ≡ ok x =
            rw unfinished at e in
          let (found, was, e₁) =
            >>=-eq-ok (read r) (next_frame fuel stream block frames count) e' in
          go
            (λ next mid e₄.
              gather-length fuel stream (block ++ next.payload) next.flags (frames ++ next ∷ [])
                (count + 1) mid x e₄)
            found was e₁
    ]
  where
    go :
        ((next : Frame) (mid : List ℕ)
          → gather fuel stream
              (block ++ next.payload)
              next.flags
              (frames ++ next ∷ [])
              (count + 1)
              mid
            ≡ ok x
          → length x.2 ≤ length mid)
        → (found : Option (Frame × List ℕ)) → read r ≡ ok found
        → next_frame fuel stream block frames count found ≡ ok x
        → length x.2 ≤ length r
    go ih none was e₁ = cc
    go ih (some (next, mid)) was e₁ =
        let (u, kind, e₂) =
          >>=-eq-ok (ensure (next.kind == 9 && next.stream == stream) "interleaved CONTINUATION") _
            e₁ in
        let (v, room, e₃) =
          >>=-eq-ok
            (ensure (leb (length block + length next.payload) max_block) "header block too large") _
            e₂ in
        let (w, few, e₄) =
          >>=-eq-ok (ensure (leb (count + 1) 1024) "too many CONTINUATION frames") _ e₃ in
        omega (arith, ih next mid e₄, read-length r mid next was)

module _ (crate : HpackCrate) (parse_url : List ℕ → Result Url) (m : Mapping) where
  same_rest :
      (r : List ℕ) (d : Direction crate) (x : Direction crate × List ℕ)
      → ◌≡◌ {A = Result (Direction crate × List ℕ)} (ok (d, r)) (ok x)
      → length x.1 ≤ length r
  same_rest r d x e =
      subst (λ (y : Direction crate × List ℕ). length y.1 ≤ length r) (ok-injective e) (omega arith)

  handle_headers-length :
      (response : Bool) (limits : PeerLimits) (frame : Frame) (r : List ℕ) (d : Direction crate)
      (x : Direction crate × List ℕ)
      → handle_headers crate parse_url m response limits frame r d ≡ ok x
      → length x.1 ≤ length r
  unfolding handle_headers
  handle_headers-length response limits frame r d x e =
      let (parts, parted, e₁) = >>=-eq-ok (header_parts frame) _ e in
      let (got, gathered, e₂) =
        >>=-eq-ok (gather 1024 frame.stream parts.2 frame.flags [] 1 r) _ e₁ in
      let (y, rewritten, e₃) =
        >>=-eq-ok (rewrite crate parse_url m response d.decoder got.0 limits.table) _ e₂ in
      let (out, reframed, e₄) = >>=-eq-ok (reframe (frame ∷ got.1) y.1 limits.frame) _ e₃ in
      let (written, wrote, e₅) = >>=-eq-ok (write_all out) _ e₄ in
      let shorter : length got.2 ≤ length r =
        gather-length 1024 frame.stream parts.2 frame.flags [] 1 r got gathered in
      let rest : length x.1 ≤ length got.2 = same_rest got.2 _ x e₅ in omega (arith, shorter, rest)

  pub handle-length :
      (response : Bool) (limits : PeerLimits) (frame : Frame) (r : List ℕ) (d : Direction crate)
      (x : Direction crate × List ℕ)
      → handle crate parse_url m response limits frame r d ≡ ok x
      → length x.1 ≤ length r
  handle-length response limits frame r d x e =
      shorter x (handle-Handled crate parse_url m response limits frame r d x e)
    where
      shorter :
          (y : Direction crate × List ℕ)
          → Handled crate parse_url m response limits frame r d y
          → length y.1 ≤ length r
      shorter y (by_headers _ headers h) = handle_headers-length response limits frame r d y h
      shorter _ (by_settings entries other written not_headers applied wrote) = omega arith
      shorter _ (passed_on written not_headers wrote) = omega arith

  pub open_direction-length :
      (r : List ℕ) (x : Direction crate × List ℕ)
      → open_direction crate parse_url m false r ≡ ok x
      → length x.1 ≤ length r
  unfolding open_direction
  open_direction-length r x e =
      let (y, taken, e₁) = >>=-eq-ok (read_exact 24 r) _ e in
      let (u, same, e₂) = >>=-eq-ok (ensure (bytes_eq y.0 preface) "invalid HTTP/2 preface") _ e₁ in
      let rest : length x.1 ≤ length y.1 = same_rest y.1 _ x e₂ in
      omega (arith, rest, read_exact-length 24 r y taken)
