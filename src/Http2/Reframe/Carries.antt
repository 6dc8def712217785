-- ===== src/Http2/Reframe/Carries.antt =====
-- The frames of `reframe` carry the rewritten block.
use fingerprint_bridge.Base.{
  ℕ, ◌+◌, ◌-◌, ◌≤◌, ◌<◌, ◌≡◌, refl, sym, ap, ◌∙◌, List, [], ◌∷◌, ◌++◌, true, false, ◌&&◌, ◌==◌, leb,
  min, length, length-append, length-take, take, drop, take-append-drop, All, All-append,
  append_assoc, if◌then◌else◌, bit_and, bit_or, Result, ok, err, ◌>>=◌, >>=-eq-ok, ok-injective,
  ensure, ensure-eq-ok, arith,
}
use fingerprint_bridge.Base.Bits.{bit_set}
use fingerprint_bridge.Std.Ascii.{is_empty}
use fingerprint_bridge.Http2.Frame.{Frame}
use fingerprint_bridge.Http2.Reframe.{
  header_parts, refill, continuations, chunks, end_headers, reframe,
}
use native.Mathlib.Nat.{le_refl}
use fingerprint_bridge.Http2.Reframe.Payloads.{
  payloads, IsOpen, IsContinuation, continuations_carry, chunks_carry, ended_end, refill-IsOpen,
}
use fingerprint_bridge.Http2.Reframe.Parts.{
  cleared_padded, cleared_priority, ended_padded, ended_priority, header_parts-refill,
  header_parts-length,
}

payloads-append : (fs gs : List Frame) → payloads (fs ++ gs) ≡ payloads fs ++ payloads gs
payloads-append [] gs = refl
payloads-append (f ∷ fs) gs =
    ap (λ t. f.payload ++ t) (payloads-append fs gs)
    ∙ sym (append_assoc f.payload (payloads fs) (payloads gs))

-- A receiver's view: the block that a HEADERS frame and its CONTINUATION frames carry.
abbrev pub header_block : List Frame → Result (List ℕ)
header_block [] = err "missing HEADERS"
header_block (f ∷ fs) = do (prefix, padding, part) ← header_parts f; ok (part ++ payloads fs)

abbrev pub OnlyLastEnds : List Frame → Type 0
OnlyLastEnds [] = ⊥
OnlyLastEnds (f ∷ []) = bit_set f.flags 2 ≡ true
OnlyLastEnds (f ∷ g ∷ fs) = (bit_set f.flags 2 ≡ false) × OnlyLastEnds (g ∷ fs)

end_headers-OnlyLastEnds :
    (f : Frame) (fs : List Frame) → IsOpen f → All IsOpen fs → OnlyLastEnds (end_headers (f ∷ fs))
unfolding end_headers
end_headers-OnlyLastEnds f [] h hs = ap (λ n. n == 1) (ended_end f.flags h.0)
end_headers-OnlyLastEnds f (g ∷ []) h hs = (h.1, end_headers-OnlyLastEnds g [] hs.0 tt)
end_headers-OnlyLastEnds f (g ∷ k ∷ fs) h hs = (h.1, end_headers-OnlyLastEnds g (k ∷ fs) hs.0 hs.1)

payloads-end_headers : (fs : List Frame) → payloads (end_headers fs) ≡ payloads fs
unfolding end_headers
payloads-end_headers [] = refl
payloads-end_headers (f ∷ []) = refl
payloads-end_headers (f ∷ g ∷ fs) = ap (λ t. f.payload ++ t) (payloads-end_headers (g ∷ fs))

end_headers-limit :
    (max_frame : ℕ) (fs : List Frame)
    → All (λ f. length f.payload ≤ max_frame) fs
    → All (λ f. length f.payload ≤ max_frame) (end_headers fs)
unfolding end_headers
end_headers-limit max_frame [] h = h
end_headers-limit max_frame (f ∷ []) h = h
end_headers-limit max_frame (f ∷ g ∷ fs) h = (h.0, end_headers-limit max_frame (g ∷ fs) h.1)

header_block-end_headers :
    (first : Frame) (prefix padding ignored part : List ℕ) (fs : List Frame)
    → first.flags < 256
    → header_parts first ≡ ok (prefix, padding, ignored)
    → header_block (end_headers (refill first prefix part padding ∷ fs)) ≡ ok (part ++ payloads fs)
unfolding end_headers
header_block-end_headers first prefix padding ignored part [] h e =
    rw
      (header_parts-refill first (bit_or (bit_and first.flags 0xfb) 4) prefix padding ignored part
        (ended_padded first.flags h) (ended_priority first.flags h) e)
      refl
header_block-end_headers first prefix padding ignored part (g ∷ fs) h e =
    rw
      (header_parts-refill first (bit_and first.flags 0xfb) prefix padding ignored part
        (cleared_padded first.flags h) (cleared_priority first.flags h) e)
      (ap (λ t. ok (part ++ t)) (payloads-end_headers (g ∷ fs)))

module _ (first : Frame) (frames out : List Frame) (encoded : List ℕ) (max_frame : ℕ) where
  -- What `reframe` makes of the first frame and the others, before the flag is set on the last.
  record Built : Type 0 where
    prefix : List ℕ
    padding : List ℕ
    ignored : List ℕ
    part : List ℕ
    tail : List Frame
    parted : header_parts first ≡ ok (prefix, padding, ignored)
    carried : part ++ payloads tail ≡ encoded
    first_fits : length (prefix ++ (part ++ padding)) ≤ max_frame
    tail_fits : All (IsContinuation first.stream max_frame) tail
    result : out ≡ end_headers (refill first prefix part padding ∷ tail)

  reframe-Built :
      All (λ f. f.flags < 256) (first ∷ frames)
      → reframe (first ∷ frames) encoded max_frame ≡ ok out
      → Built
  unfolding reframe
  reframe-Built octets e =
      let (u, range, e₁) =
        >>=-eq-ok (ensure (leb 16384 max_frame && leb max_frame 0xffffff) "invalid frame limit") _
          e in
      let (parts, parted, e₂) = >>=-eq-ok (header_parts first) _ e₁ in
      let (v, room, e₃) =
        >>=-eq-ok (ensure (leb (length first.payload) max_frame) "header frame exceeds peer limit")
          _ e₂ in
      let prefix : List ℕ = parts.0 in
      let padding : List ℕ = parts.1 in
      let cap : ℕ =
        (if is_empty frames then max_frame else length first.payload)
        - (length prefix + length padding) in
      let n : ℕ = min cap (length encoded) in
      let (rest, ran, e₄) =
        >>=-eq-ok (continuations first.stream max_frame frames (drop n encoded)) _ e₃ in
      let more : List Frame = chunks (length rest.1) first.stream max_frame rest.1 in
      let large : (leb 16384 max_frame && leb max_frame 0xffffff) ≡ true = ensure-eq-ok _ _ range in
      let fits : leb (length first.payload) max_frame ≡ true = ensure-eq-ok _ _ room in
      let (carried, all_fit) =
        continuations_carry first.stream max_frame frames rest.0 (drop n encoded) rest.1 octets.1
          ran in
      let (carried', all_fit') =
        chunks_carry (length rest.1) first.stream max_frame rest.1 (le_refl _)
          (ground (arith, large)) in
      let overhead : length prefix + length padding ≤ length first.payload =
        header_parts-length first prefix padding parts.2 parted in
      let capped : cap + (length prefix + length padding) ≤ max_frame =
        ground (arith, fits, overhead) in
      record {
        prefix = prefix;
        padding = padding;
        ignored = parts.2;
        part = take n encoded;
        tail = rest.0 ++ more;
        parted = parted;
        carried =
            rw (payloads-append rest.0 more)
              (rw carried' (rw carried (take-append-drop n encoded)));
        first_fits = omega (
          arith,
          length-append prefix (take n encoded ++ padding),
          length-append (take n encoded) padding,
          length-take n encoded,
          capped,
        );
        tail_fits = All-append _ rest.0 more all_fit all_fit';
        result = sym (ok-injective e₄);
      }

  tail-IsOpen : (fs : List Frame) → All (IsContinuation first.stream max_frame) fs → All IsOpen fs
  tail-IsOpen [] h = tt
  tail-IsOpen (f ∷ fs) h = (h.0.3, tail-IsOpen fs h.1)

  tail-limit :
      (fs : List Frame)
      → All (IsContinuation first.stream max_frame) fs
      → All (λ f. length f.payload ≤ max_frame) fs
  tail-limit [] h = tt
  tail-limit (f ∷ fs) h = (h.0.2, tail-limit fs h.1)

  pub reframe_carries :
      All (λ f. f.flags < 256) (first ∷ frames)
      → reframe (first ∷ frames) encoded max_frame ≡ ok out
      → (header_block out ≡ ok encoded)
        × All (λ f. length f.payload ≤ max_frame) out
        × OnlyLastEnds out
  reframe_carries octets e =
      let b = reframe-Built octets e in
      let head : Frame = refill first b.prefix b.part b.padding in
      rw b.result (
        header_block-end_headers first b.prefix b.padding b.ignored b.part b.tail octets.0 b.parted
            ∙ ap ok b.carried,
        end_headers-limit max_frame (head ∷ b.tail) (b.first_fits, tail-limit b.tail b.tail_fits),
        end_headers-OnlyLastEnds head b.tail
            (refill-IsOpen first b.prefix b.part b.padding octets.0)
            (tail-IsOpen b.tail b.tail_fits),
      )
