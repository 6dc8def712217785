-- ===== src/Http2/Direction/Verbatim.antt =====
-- Frames that are neither HEADERS nor refused pass unchanged.
use mathlib.Core.Path.{subst}
use fingerprint_bridge.Base.{
  ℕ, zero, suc, ◌+◌, ◌≤◌, ◌≡◌, refl, sym, ap, ◌∙◌, ◌⊎◌, inl, inr, List, [], ◌∷◌, ◌++◌, Bool, true,
  false, ◌&&◌, ◌==◌, leb, if◌then◌else◌, length, length-append, le→leb, append_assoc, append-nil,
  All, some, Result, ok, err, arith, Bool-cases,
}
use fingerprint_bridge.Base.Bytes.{bytes_eq}
use fingerprint_bridge.Rewrite.Mapping.{Url, Mapping}
use fingerprint_bridge.Hpack.Rewriter.{HpackCrate}
use fingerprint_bridge.Http2.Frame.{Frame, read, read_exact, write}
use fingerprint_bridge.Http2.Frame.RoundTrip.{IsFrame, read-write}
use fingerprint_bridge.Http2.Settings.{settings}
use fingerprint_bridge.Http2.Direction.{
  PeerLimits, apply_settings, Direction, initial, handle, frames_loop, open_direction, direction,
  preface,
}

-- A maximal frame size is in its range.
abbrev pub IsEntry : ℕ × ℕ → Type 0
IsEntry (id, value) = (id == 5 ≡ true) → (leb 16384 value && leb value 0xffffff) ≡ true

-- The kind of frame that is sent on as it is: all but HEADERS, SETTINGS, PUSH_PROMISE and
-- CONTINUATION; or SETTINGS that are well formed.
abbrev pub IsPlain : Frame → Type 0
IsPlain f =
    ((f.kind == 4) ≡ false)
    × ((f.kind == 1) ≡ false)
    × ((f.kind == 5) ≡ false)
    × ((f.kind == 9) ≡ false)

abbrev pub IsSettings : Frame → Type 0
IsSettings f =
    ((f.kind == 4) ≡ true)
    × (entries : List (ℕ × ℕ)) × (settings f ≡ ok entries)
    × All IsEntry entries

-- The bytes of a frame that can be written, and of several.
abbrev pub bytes_of : Result (List ℕ) → List ℕ
bytes_of (ok bytes) = bytes
bytes_of (err e) = []

abbrev pub frame_bytes : Frame → List ℕ
frame_bytes f = bytes_of (write f)

abbrev pub wire : List Frame → List ℕ
wire [] = []
wire (f ∷ fs) = frame_bytes f ++ wire fs

write-length : (f : Frame) (bytes : List ℕ) → write f ≡ ok bytes → 1 ≤ length bytes
unfolding write
write-length f bytes e = ground arith

written-bytes :
    (f : Frame) (rest bytes : List ℕ)
    → write f ≡ ok bytes
    → read (bytes ++ rest) ≡ ok (some (f, rest))
    → (write f ≡ ok (frame_bytes f))
      × (read (frame_bytes f ++ rest) ≡ ok (some (f, rest)))
      × (1 ≤ length (frame_bytes f))
written-bytes f rest bytes w r =
    let same : frame_bytes f ≡ bytes = ap bytes_of w in
    subst
      (λ (b : List ℕ). (write f ≡ ok b) × (read (b ++ rest) ≡ ok (some (f, rest))) × (1 ≤ length b))
      (sym same) (w, r, write-length f bytes w)

written :
    (f : Frame) (rest : List ℕ)
    → IsFrame f
    → (write f ≡ ok (frame_bytes f))
      × (read (frame_bytes f ++ rest) ≡ ok (some (f, rest)))
      × (1 ≤ length (frame_bytes f))
written f rest h = let (bytes, w, r) = read-write f rest h in written-bytes f rest bytes w r

apply_settings_total :
    (entries : List (ℕ × ℕ)) (other : PeerLimits)
    → All IsEntry entries
    → (after : PeerLimits) × (apply_settings entries other ≡ ok after)
unfolding apply_settings
apply_settings_total [] other h = (other, refl)
apply_settings_total ((id, value) ∷ entries) other h = elim (Bool-cases (id == 1)) [
  | inl is_table ↦ rw is_table (apply_settings_total entries (record other { table = value }) h.1)
  | inr not_table ↦ elim (Bool-cases (id == 5)) [
    | inl is_frame ↦ rw not_table (
        rw is_frame
          (rw (h.0 is_frame) (apply_settings_total entries (record other { frame = value }) h.1)))
    | inr not_frame ↦ rw not_table (rw not_frame (apply_settings_total entries other h.1))
  ]
]

read_exact-preface : (r : List ℕ) → read_exact 24 (preface ++ r) ≡ ok (preface, r)
unfolding read_exact
read_exact-preface r =
    let there : leb 24 (length (preface ++ r)) ≡ true =
      le→leb _ _ (omega (arith, length-append preface r)) in
    rw there refl

preface-bytes_eq : bytes_eq preface preface ≡ true
unfolding bytes_eq
preface-bytes_eq = refl

module _ (crate : HpackCrate) (parse_url : List ℕ → Result Url) (m : Mapping) (response : Bool)
    (limits : ℕ → PeerLimits) where
  abbrev D : Type 0
  D = Direction crate

  handle_verbatim :
      (k : ℕ) (f : Frame) (r : List ℕ) (d : D)
      → IsFrame f
      → IsPlain f ⊎ IsSettings f
      → (d' : D) × (handle crate parse_url m response (limits k) f r d ≡ ok (d', r))
        × (d'.sent ≡ d.sent ++ frame_bytes f)
  unfolding handle
  handle_verbatim k f r d h (inl (a, b, c, e)) = (
    record d { sent = d.sent ++ frame_bytes f },
    rw a (rw b (rw c (rw e (rw (written f r h).0 refl)))),
    refl,
  )
  handle_verbatim k f r d h (inr (a, entries, s, range)) =
      let (after, applied) = apply_settings_total entries d.other range in
      (
        record d { other = after; sent = d.sent ++ frame_bytes f },
        rw a (rw s (rw applied (rw (written f r h).0 refl))),
        refl,
      )

  loop_verbatim :
      (fs : List Frame) (fuel k : ℕ) (d : D)
      → All (λ (f : Frame). IsFrame f × (IsPlain f ⊎ IsSettings f)) fs
      → length (wire fs) ≤ fuel
      → (d' : D) × (frames_loop crate parse_url m response fuel limits k (wire fs) d ≡ ok d')
        × (d'.sent ≡ d.sent ++ wire fs)
  unfolding frames_loop read
  loop_verbatim [] zero k d h enough = (d, refl, sym (append-nil d.sent))
  loop_verbatim [] (suc fuel) k d h enough = (d, refl, sym (append-nil d.sent))
  loop_verbatim (f ∷ fs) zero k d h enough =
      let long : 1 ≤ length (frame_bytes f) = (written f (wire fs) h.0.0).2 in
      absurd (omega (arith, length-append (frame_bytes f) (wire fs)))
  loop_verbatim (f ∷ fs) (suc fuel) k d h enough =
      let (w, r, long) = written f (wire fs) (h.0.0) in
      let (d', handled, s) = handle_verbatim k f (wire fs) d h.0.0 h.0.1 in
      let less : length (wire fs) ≤ fuel = omega (arith, length-append (frame_bytes f) (wire fs)) in
      let (e, ran, s') = loop_verbatim fs fuel (k + 1) d' h.1 less in
      (e, rw r (rw handled ran), rw s' (rw s (append_assoc d.sent (frame_bytes f) (wire fs))))

  abbrev pub opening : List ℕ
  opening = if response then [] else preface

  go : List ℕ → Result D
  go = direction crate parse_url m response limits

  loop : ℕ → List ℕ → D → Result D
  loop fuel r d = frames_loop crate parse_url m response fuel limits 0 r d

  replying-go : (r : List ℕ) → response ≡ true → go r ≡ loop (length r) r (initial crate)
  unfolding direction open_direction go loop
  replying-go r e = rw e refl

  asking-go :
      (r : List ℕ)
      → response ≡ false
      → go (preface ++ r) ≡ loop (length r) r (record (initial crate) { sent = preface })
  unfolding direction open_direction go loop
  asking-go r e = rw e (rw (read_exact-preface r) (rw preface-bytes_eq refl))

  -- A direction that receives, behind the connection preface where it is the client's, only frames
  -- with 32-bit stream identifiers and payloads of at most 1 MiB, each either of a kind other than
  -- HEADERS, SETTINGS, PUSH_PROMISE and CONTINUATION or a well-formed SETTINGS frame with maximal frame
  -- sizes in range, succeeds, and has sent exactly the bytes that it received, in their order.
  pub direction_verbatim :
      (fs : List Frame)
      → All (λ (f : Frame). IsFrame f × (IsPlain f ⊎ IsSettings f)) fs
      → (d : D) × (direction crate parse_url m response limits (opening ++ wire fs) ≡ ok d)
        × (d.sent ≡ opening ++ wire fs)
  unfolding go loop
  direction_verbatim fs h = elim (Bool-cases response) [
    | inl e ↦
        let (d, ran, s) = loop_verbatim fs (length (wire fs)) 0 (initial crate) h (omega arith) in
        (
          d,
          ap (λ (b : Bool). go ((if b then [] else preface) ++ wire fs)) e
              ∙ replying-go (wire fs) e
              ∙ ran,
          s ∙ ap (λ (b : Bool). (if b then [] else preface) ++ wire fs) (sym e),
        )
    | inr e ↦
        let (d, ran, s) =
          loop_verbatim fs (length (wire fs)) 0 (record (initial crate) { sent = preface }) h
            (omega arith) in
        (
          d,
          ap (λ (b : Bool). go ((if b then [] else preface) ++ wire fs)) e
              ∙ asking-go (wire fs) e
              ∙ ran,
          s ∙ ap (λ (b : Bool). (if b then [] else preface) ++ wire fs) (sym e),
        )
  ]
