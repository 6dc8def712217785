-- ===== src/Tls/Certificates/Bounded.antt =====
-- The output of `Zstd::decompress` is bounded, and its loop ends.
use mathlib.Core.Path.{subst}
use fingerprint_bridge.Base.{
  ℕ, zero, suc, ◌+◌, ◌-◌, ◌≤◌, ◌≡◌, refl, List, [], ◌∷◌, true, leb, leb→le, length, length-append,
  ok, ensure, >>=-eq-ok, ensure-eq-ok, ok-injective, Result-cases, inl, inr, arith, not,
}
use fingerprint_bridge.Std.Ascii.{is_empty}
use fingerprint_bridge.Tls.Certificates.{
  ZstdCrate, max_certificate, checksum_fits, frames_loop, decompress,
}

not_empty : (s : List ℕ) → not (is_empty s) ≡ true → 1 ≤ length s
not_empty s h = ground arith

module _ (crate : ZstdCrate) where
  frames_loop-le :
      (fuel total : ℕ) (input out : List ℕ)
      → total ≤ max_certificate
      → frames_loop crate fuel total input ≡ ok out
      → total + length out ≤ max_certificate
  unfolding frames_loop
  frames_loop-le zero total [] out h e =
      subst (λ (l : List ℕ). total + length l ≤ max_certificate) (ok-injective e) (omega (arith, h))
  frames_loop-le (suc fuel) total [] out h e =
      subst (λ (l : List ℕ). total + length l ≤ max_certificate) (ok-injective e) (omega (arith, h))
  frames_loop-le zero total (c ∷ input) out h e = cc e
  frames_loop-le (suc fuel) total (c ∷ input) out h e =
      let (d, _, e₁) = >>=-eq-ok (crate.decode (max_certificate - total + 1) (c ∷ input)) _ e in
      let (_, small, e₂) =
        >>=-eq-ok
          (ensure (leb (total + length d.written) max_certificate)
            "oversized Zstandard certificate")
          _ e₁ in
      let (_, _, e₃) =
        >>=-eq-ok
          (ensure (checksum_fits d.checksum_from_data d.calculated_checksum)
            "Zstandard checksum mismatch")
          _ e₂ in
      let (more, ran, done) =
        >>=-eq-ok (frames_loop crate fuel (total + length d.written) d.remaining) _ e₃ in
      let within : total + length d.written ≤ max_certificate =
        leb→le _ _ (ensure-eq-ok _ _ small) in
      let rest : (total + length d.written) + length more ≤ max_certificate =
        frames_loop-le fuel (total + length d.written) d.remaining more within ran in
      subst (λ (l : List ℕ). total + length l ≤ max_certificate) (ok-injective done)
        (omega (arith, length-append d.written more, rest))

  -- More rounds than bytes change nothing.
  frames_loop_fuel :
      (fuel more total : ℕ) (input : List ℕ)
      → length input ≤ fuel
      → frames_loop crate (fuel + more) total input ≡ frames_loop crate fuel total input
  unfolding frames_loop
  frames_loop_fuel fuel more total [] h = refl
  frames_loop_fuel zero more total (c ∷ input) h = absurd (omega arith)
  frames_loop_fuel (suc fuel) more total (c ∷ input) h =
      let rounds : suc fuel + more ≡ suc (fuel + more) = omega arith in
      rw rounds (elim (Result-cases (crate.decode (max_certificate - total + 1) (c ∷ input))) [
        | inr (e, failed) ↦ rw failed refl
        | inl (d, decoded) ↦
            let left : length d.remaining ≤ fuel =
              omega (arith, crate.consumes (max_certificate - total + 1) (c ∷ input) d decoded) in
            rw decoded
              (rw (frames_loop_fuel fuel more (total + length d.written) d.remaining left) refl)
      ])

  -- A certificate that `decompress` accepts is not empty and has at most 2^24 - 1 bytes decompressed;
  -- the loop takes at most one round for each byte of the input.
  pub decompress_bounded :
      (input : List ℕ)
      → ((out : List ℕ)
          → decompress crate input ≡ ok out
          → (1 ≤ length input) × (length out ≤ max_certificate))
        × ((more : ℕ)
            → frames_loop crate (length input + more) 0 input
              ≡ frames_loop crate (length input) 0 input)
  unfolding decompress
  decompress_bounded input = (
    (λ out e.
        let (_, some_input, ran) =
          >>=-eq-ok (ensure (not (is_empty input)) "empty Zstandard certificate") _ e in
        (
          not_empty input (ensure-eq-ok _ _ some_input),
          omega (arith, frames_loop-le (length input) 0 input out (omega arith) ran),
        )),
    (λ more. frames_loop_fuel (length input) more 0 input (omega arith)),
  )
