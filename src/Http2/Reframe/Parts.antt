-- ===== src/Http2/Reframe/Parts.antt =====
-- `header_parts` on a payload whose fragment was replaced.
use mathlib.Core.Path.{subst}
use fingerprint_bridge.Base.{
  ℕ, suc, ◌+◌, ◌-◌, ◌/◌, ◌%◌, ◌≤◌, ◌<◌, ◌≡◌, refl, ap, List, [], ◌∷◌, ◌++◌, Bool, true, false, not,
  ◌&&◌, ◌||◌, ◌==◌, leb, leb→le, le→leb, length, length-append, length-take, length-drop, take,
  drop, take-append, drop-append, append_assoc, if◌then◌else◌, bit_and, bit_or, ok, >>=-eq-ok,
  ok-injective, ensure, ensure-eq-ok, arith,
}
use fingerprint_bridge.Base.Bits.{bit_set, low_bits, agree, agree_sound}
use fingerprint_bridge.Std.Ascii.{is_empty}
use fingerprint_bridge.Hpack.Rewriter.{slice, byte_at}
use fingerprint_bridge.Http2.Frame.{Frame}
use fingerprint_bridge.Http2.Reframe.{header_parts, split_payload}

-- The flags of a frame less END_HEADERS, and with it again, keep PADDED and PRIORITY.
pub cleared_padded : (x : ℕ) → x < 256 → bit_and x 0xfb / 8 % 2 ≡ x / 8 % 2
unfolding agree
cleared_padded = agree_sound (λ x. bit_and x 0xfb / 8 % 2) (λ x. x / 8 % 2) 256 refl

pub cleared_priority : (x : ℕ) → x < 256 → bit_and x 0xfb / 32 % 2 ≡ x / 32 % 2
unfolding agree
cleared_priority = agree_sound (λ x. bit_and x 0xfb / 32 % 2) (λ x. x / 32 % 2) 256 refl

pub ended_padded : (x : ℕ) → x < 256 → bit_or (bit_and x 0xfb) 4 / 8 % 2 ≡ x / 8 % 2
unfolding agree
ended_padded = agree_sound (λ x. bit_or (bit_and x 0xfb) 4 / 8 % 2) (λ x. x / 8 % 2) 256 refl

pub ended_priority : (x : ℕ) → x < 256 → bit_or (bit_and x 0xfb) 4 / 32 % 2 ≡ x / 32 % 2
unfolding agree
ended_priority = agree_sound (λ x. bit_or (bit_and x 0xfb) 4 / 32 % 2) (λ x. x / 32 % 2) 256 refl

-- Cutting a text at the lengths of its parts.
slice-append :
    (pre part suf : List ℕ) (start pad : ℕ)
    → start ≡ length pre
    → pad ≡ length suf
    → (leb (start + pad) (length (pre ++ (part ++ suf))) ≡ true)
      × (take start (pre ++ (part ++ suf)) ≡ pre)
      × (drop (length (pre ++ (part ++ suf)) - pad) (pre ++ (part ++ suf)) ≡ suf)
      × (slice (pre ++ (part ++ suf)) start (length (pre ++ (part ++ suf)) - pad) ≡ part)
slice-append pre part suf start pad hs hp =
    let whole : List ℕ = pre ++ (part ++ suf) in
    let size : length whole ≡ length pre + (length part + length suf) =
      omega (arith, length-append pre (part ++ suf), length-append part suf) in
    let end : length whole - pad ≡ length (pre ++ part) =
      omega (arith, size, length-append pre part) in
    let width : length whole - pad - start ≡ length part = omega (arith, size) in
    (
      le→leb _ _ (omega (arith, size)),
      rw hs (take-append pre (part ++ suf)),
      rw end (rw (← append_assoc pre part suf) (drop-append (pre ++ part) suf)),
      rw width (rw hs (rw drop-append (take-append part suf))),
    )

-- The pad length is the first byte of the prefix.
pad_kept :
    (padded : Bool) (k : ℕ) (b t : List ℕ)
    → (not padded || not (is_empty b)) ≡ true
    → ((not padded || not (is_empty (take ((if padded then 1 else 0) + k) b ++ t))) ≡ true)
      × ((if padded then byte_at (take ((if padded then 1 else 0) + k) b ++ t) 0 else 0)
          ≡ (if padded then byte_at b 0 else 0))
pad_kept false k b t h = (refl, refl)
pad_kept true k [] t h = cc h
pad_kept true k (c ∷ b) t h = let one_more : 1 + k ≡ suc k = omega arith in rw one_more (refl, refl)

split_payload-refill :
    (padded : Bool) (k : ℕ) (b prefix padding ignored part : List ℕ)
    → split_payload padded k b ≡ ok (prefix, padding, ignored)
    → split_payload padded k (prefix ++ (part ++ padding)) ≡ ok (prefix, padding, part)
unfolding split_payload
split_payload-refill padded k b prefix padding ignored part e =
    let start : ℕ = (if padded then 1 else 0) + k in
    let pad : ℕ = if padded then byte_at b 0 else 0 in
    let (v, there, e₁) =
      >>=-eq-ok (ensure (not padded || not (is_empty b)) "missing pad length") _ e in
    let (w, room, e₂) =
      >>=-eq-ok (ensure (leb (start + pad) (length b)) "bad HEADERS padding/priority") _ e₁ in
    let fits : leb (start + pad) (length b) ≡ true = ensure-eq-ok _ _ room in
    let pre : List ℕ = take start b in
    let suf : List ℕ = drop (length b - pad) b in
    let same =
      ok-injective {a = (pre, suf, slice b start (length b - pad))} {b = (prefix, padding, ignored)}
        e₂ in
    let (still_there, same_pad) = pad_kept padded k b (part ++ suf) (ensure-eq-ok _ _ there) in
    let (enough, front, back, middle) =
      slice-append pre part suf start pad (omega (arith, length-take start b, leb→le _ _ fits))
        (omega (arith, length-drop (length b - pad) b, leb→le _ _ fits)) in
    subst (λ x. split_payload padded k (x.0 ++ (part ++ x.1)) ≡ ok (x.0, x.1, part)) same
      (rw still_there (rw same_pad (rw enough (rw (front, back, middle) refl))))

pub header_parts-refill :
    (first : Frame) (flags : ℕ) (prefix padding ignored part : List ℕ)
    → flags / 8 % 2 ≡ first.flags / 8 % 2
    → flags / 32 % 2 ≡ first.flags / 32 % 2
    → header_parts first ≡ ok (prefix, padding, ignored)
    → header_parts (record first { flags = flags; payload = prefix ++ (part ++ padding) })
      ≡ ok (prefix, padding, part)
unfolding header_parts
header_parts-refill first flags prefix padding ignored part same8 same32 e =
    let (u, kind, e₁) =
      >>=-eq-ok (ensure (first.kind == 1 && not (low_bits first.stream 31 == 0)) "invalid HEADERS")
        _ e in
    let is_headers : (first.kind == 1 && not (low_bits first.stream 31 == 0)) ≡ true =
      ensure-eq-ok _ _ kind in
    let padded : bit_set flags 3 ≡ bit_set first.flags 3 = ap (λ n. n == 1) same8 in
    let priority : bit_set flags 5 ≡ bit_set first.flags 5 = ap (λ n. n == 1) same32 in
    rw (is_headers, padded, priority)
      (split_payload-refill _ _ first.payload prefix padding ignored part e₁)

pub header_parts-length :
    (first : Frame) (prefix padding part : List ℕ)
    → header_parts first ≡ ok (prefix, padding, part)
    → length prefix + length padding ≤ length first.payload
unfolding header_parts split_payload
header_parts-length first prefix padding part e =
    let b : List ℕ = first.payload in
    let padded : Bool = bit_set first.flags 3 in
    let start : ℕ = (if padded then 1 else 0) + (if bit_set first.flags 5 then 5 else 0) in
    let pad : ℕ = if padded then byte_at b 0 else 0 in
    let (u, kind, e₁) =
      >>=-eq-ok (ensure (first.kind == 1 && not (low_bits first.stream 31 == 0)) "invalid HEADERS")
        _ e in
    let (v, there, e₂) =
      >>=-eq-ok (ensure (not padded || not (is_empty b)) "missing pad length") _ e₁ in
    let (w, room, e₃) =
      >>=-eq-ok (ensure (leb (start + pad) (length b)) "bad HEADERS padding/priority") _ e₂ in
    let same =
      ok-injective {a = (take start b, drop (length b - pad) b, slice b start (length b - pad))}
        {b = (prefix, padding, part)} e₃ in
    subst (λ x. length x.0 + length x.1 ≤ length b) same
      (omega (
        arith,
        length-take start b,
        length-drop (length b - pad) b,
        leb→le _ _ (ensure-eq-ok _ _ room),
      ))
