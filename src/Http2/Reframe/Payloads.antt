-- ===== src/Http2/Reframe/Payloads.antt =====
-- What the frames of a rewritten block carry.
use mathlib.Core.Path.{subst}
use fingerprint_bridge.Base.{
  ℕ, zero, suc, ◌/◌, ◌%◌, ◌≤◌, ◌<◌, ◌≡◌, refl, sym, ap, ap₂, ◌∙◌, List, [], ◌∷◌, ◌++◌, true, false,
  ◌&&◌, ◌==◌, leb, min, length, length-append, length-take, length-drop, take, drop,
  take-append-drop, All, append_assoc, append-nil, if◌then◌else◌, bit_and, bit_or, ok, >>=-eq-ok,
  ok-injective, ensure, ensure-eq-ok, arith,
}
use fingerprint_bridge.Base.Bits.{bit_set, agree, agree_sound}
use fingerprint_bridge.Std.Ascii.{is_empty}
use fingerprint_bridge.Http2.Frame.{Frame}
use fingerprint_bridge.Http2.Reframe.{refill, continuations, chunks}

abbrev pub payloads : List Frame → List ℕ
payloads [] = []
payloads (f ∷ fs) = f.payload ++ payloads fs

-- The flags are an octet, and END_HEADERS is not among them.
abbrev pub IsOpen : Frame → Type 0
IsOpen f = (f.flags < 256) × (bit_set f.flags 2 ≡ false)

-- A CONTINUATION frame of the stream, within the peer's limit and without END_HEADERS.
abbrev pub IsContinuation : ℕ → ℕ → Frame → Type 0
IsContinuation stream max_frame f =
    (f.kind ≡ 9) × (f.stream ≡ stream) × (length f.payload ≤ max_frame) × IsOpen f

cleared_octet : (x : ℕ) → x < 256 → bit_and x 0xfb / 256 ≡ 0
unfolding agree
cleared_octet = agree_sound (λ x. bit_and x 0xfb / 256) (λ x. 0) 256 refl

cleared_end : (x : ℕ) → x < 256 → bit_and x 0xfb / 4 % 2 ≡ 0
unfolding agree
cleared_end = agree_sound (λ x. bit_and x 0xfb / 4 % 2) (λ x. 0) 256 refl

pub ended_end : (x : ℕ) → x < 256 → bit_or x 4 / 4 % 2 ≡ 1
unfolding agree
ended_end = agree_sound (λ x. bit_or x 4 / 4 % 2) (λ x. 1) 256 refl

pub refill-IsOpen :
    (f : Frame) (prefix part padding : List ℕ)
    → f.flags < 256
    → IsOpen (refill f prefix part padding)
refill-IsOpen f prefix part padding h =
    (omega (arith, cleared_octet f.flags h), ap (λ n. n == 1) (cleared_end f.flags h))

pub continuations_carry :
    (stream max_frame : ℕ) (frames out : List Frame) (left left' : List ℕ)
    → All (λ f. f.flags < 256) frames
    → continuations stream max_frame frames left ≡ ok (out, left')
    → (payloads out ++ left' ≡ left) × All (IsContinuation stream max_frame) out
unfolding continuations
continuations_carry stream max_frame [] out left left' o e =
    let same = ok-injective e in
    (
      ap₂ (λ o l. payloads o ++ l) (sym (ap (λ x. x.0) same)) (sym (ap (λ x. x.1) same)),
      subst (All (IsContinuation stream max_frame)) (ap (λ x. x.0) same) tt,
    )
continuations_carry stream max_frame (frame ∷ frames) out left left' o e =
    let (u, fits, e₁) =
      >>=-eq-ok (ensure (leb (length frame.payload) max_frame) "header frame exceeds peer limit") _
        e in
    let (v, kind, e₂) =
      >>=-eq-ok (ensure (frame.kind == 9 && frame.stream == stream) "invalid CONTINUATION") _ e₁ in
    let cap : ℕ = if is_empty frames then max_frame else length frame.payload in
    let n : ℕ = min cap (length left) in
    let (rest, ran, e₃) = >>=-eq-ok (continuations stream max_frame frames (drop n left)) _ e₂ in
    let (carried, all_fit) =
      continuations_carry stream max_frame frames rest.0 (drop n left) rest.1 o.1 ran in
    let part : List ℕ = take n left in
    let built : Frame = refill frame [] part [] in
    let room : leb (length frame.payload) max_frame ≡ true = ensure-eq-ok _ _ fits in
    let is_next : (frame.kind == 9 && frame.stream == stream) ≡ true = ensure-eq-ok _ _ kind in
    let same = ok-injective {a = (built ∷ rest.0, rest.1)} {b = (out, left')} e₃ in
    let cap_fits : cap ≤ max_frame = ground (arith, room) in
    let built_fits : IsContinuation stream max_frame built = (
      ground (arith, is_next),
      ground (arith, is_next),
      omega (arith, length-append part [], length-take n left, cap_fits),
      refill-IsOpen frame [] part [] o.0,
    ) in
    let whole : payloads (built ∷ rest.0) ++ rest.1 ≡ left =
      simp (append-nil, append_assoc) (ap (λ t. part ++ t) carried ∙ take-append-drop n left) in
    subst (λ x. (payloads x.0 ++ x.1 ≡ left) × All (IsContinuation stream max_frame) x.0) same
      (whole, (built_fits, all_fit))

pub chunks_carry :
    (fuel stream max_frame : ℕ) (left : List ℕ)
    → length left ≤ fuel
    → 1 ≤ max_frame
    → (payloads (chunks fuel stream max_frame left) ≡ left)
      × All (IsContinuation stream max_frame) (chunks fuel stream max_frame left)
unfolding chunks
chunks_carry zero stream max_frame [] h pos = (refl, tt)
chunks_carry zero stream max_frame (c ∷ left) h pos = absurd (omega arith)
chunks_carry (suc fuel) stream max_frame [] h pos = (refl, tt)
chunks_carry (suc fuel) stream max_frame (c ∷ left) h pos =
    let l : List ℕ = c ∷ left in
    let (carried, fits) =
      chunks_carry fuel stream max_frame (drop max_frame l) (omega (arith, length-drop max_frame l))
        pos in
    (
      ap (λ t. take max_frame l ++ t) carried ∙ take-append-drop max_frame l,
      ((refl, refl, omega (arith, length-take max_frame l), (omega arith, refl)), fits),
    )
