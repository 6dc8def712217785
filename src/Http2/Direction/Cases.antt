-- ===== src/Http2/Direction/Cases.antt =====
-- What `handle` can have done, where it succeeds.
use mathlib.Core.Path.{subst}
use fingerprint_bridge.Base.{
  ℕ, List, ◌++◌, Bool, true, false, ◌==◌, ◌≡◌, String, Result, ok, err, ◌>>=◌, >>=-eq-ok,
  ok-injective, Bool-cases, inl, inr, arith,
}
use fingerprint_bridge.Rewrite.Mapping.{Url, Mapping}
use fingerprint_bridge.Hpack.Rewriter.{HpackCrate}
use fingerprint_bridge.Http2.Frame.{Frame, write}
use fingerprint_bridge.Http2.Settings.{settings}
use fingerprint_bridge.Http2.Direction.{
  PeerLimits, Direction, apply_settings, handle_headers, handle,
}

module _ (crate : HpackCrate) (parse_url : List ℕ → Result Url) (m : Mapping) (response : Bool)
    (limits : PeerLimits) (frame : Frame) (r : List ℕ) (d : Direction crate) where
  pub data Handled : Direction crate × List ℕ → Type 0 where
    by_headers :
        (x : Direction crate × List ℕ)
        → (frame.kind == 1) ≡ true
        → handle_headers crate parse_url m response limits frame r d ≡ ok x
        → Handled x
    by_settings :
        (entries : List (ℕ × ℕ)) (other : PeerLimits) (written : List ℕ)
        → (frame.kind == 1) ≡ false
        → apply_settings entries d.other ≡ ok other
        → write frame ≡ ok written
        → Handled (record d { other = other; sent = d.sent ++ written }, r)
    passed_on :
        (written : List ℕ)
        → (frame.kind == 1) ≡ false
        → write frame ≡ ok written
        → Handled (record d { sent = d.sent ++ written }, r)

  refused : String → Result (Direction crate × List ℕ)
  refused = err

  pub handle-Handled :
      (x : Direction crate × List ℕ)
      → handle crate parse_url m response limits frame r d ≡ ok x
      → Handled x
  unfolding handle refused
  handle-Handled x e = elim (Bool-cases (frame.kind == 4)) [
    | inl is_settings ↦
        let (entries, read_so, e₁) =
          >>=-eq-ok (settings frame)
            (λ entries. apply_settings entries d.other >>= (λ other.
              write frame
              >>= (λ bytes. ok (record d { other = other; sent = d.sent ++ bytes }, r))))
            (rw (is_settings, handle) at e) in
        let (other, applied, e₂) = >>=-eq-ok (apply_settings entries d.other) _ e₁ in
        let (written, wrote, e₃) = >>=-eq-ok (write frame) _ e₂ in
        subst Handled (ok-injective e₃)
          (by_settings entries other written (ground arith) applied wrote)
    | inr not_settings ↦ elim (Bool-cases (frame.kind == 1)) [
      | inl headers ↦ by_headers x headers (rw (not_settings, headers, handle) at e)
      | inr not_headers ↦ elim (Bool-cases (frame.kind == 5)) [
        | inl push ↦
            let e' : refused "HTTP/2 server push unsupported" ≡ ok x =
              rw (not_settings, not_headers, push, handle) at e in
            cc
        | inr not_push ↦ elim (Bool-cases (frame.kind == 9)) [
          | inl continuation ↦
              let e' : refused "unexpected CONTINUATION" ≡ ok x =
                rw (not_settings, not_headers, not_push, continuation, handle) at e in
              cc
          | inr other ↦
              let (written, wrote, e₁) =
                >>=-eq-ok (write frame) (λ bytes. ok (record d { sent = d.sent ++ bytes }, r))
                  (rw (not_settings, not_headers, not_push, other, handle) at e) in
              subst Handled (ok-injective e₁) (passed_on written not_headers wrote)
        ]
      ]
    ]
  ]
