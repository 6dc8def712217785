-- ===== src/Tests/TlsRuns.antt =====
-- Hellos, their digests and what is made of them.
use mathlib.Core.Path.{subst}
use mathlib.Core.List.{Perm}
use mathlib.Core.List.Perm
use fingerprint_bridge.Base.{
  ℕ, ◌+◌, ◌≤◌, ◌<◌, ◌≡◌, ◌↔◌, refl, List, [], ◌∷◌, ◌++◌, true, false, none, replicate, length,
  length-take, Result, ok, err, ok-injective, take, arith,
}
use fingerprint_bridge.Base.Bytes.{text}
use fingerprint_bridge.Fingerprint.Hello.{TlsHello, start, parse_hello}
use fingerprint_bridge.Fingerprint.Ja3.{ja3_string}
use fingerprint_bridge.Fingerprint.Ja3.Injective.{ja3_fields, ja3_string-eq_iff}
use fingerprint_bridge.Fingerprint.Ja4.{ja4}
use fingerprint_bridge.Fingerprint.Ja4.Order.{ja4-Perm}
use fingerprint_bridge.Fingerprint.Records.{client_hello}
use fingerprint_bridge.Fingerprint.Records.Fragments.{
  Fragment, on_wire, parsed, client_hello-on_wire,
}
use fingerprint_bridge.Tls.Order.{backend_extensions, extension_order}
use fingerprint_bridge.Tls.Order.Permutation.{firsts, absent, extension_order-Perm}
use fingerprint_bridge.Tls.Certificates.{
  Decoded, ZstdCrate, max_certificate, frames_loop, decompress,
}
use fingerprint_bridge.Tls.Certificates.Bounded.{decompress_bounded}
use fingerprint_bridge.Tls.Mirror.{
  Call, mirror, decode_all, run_steps, steps, selected, unpatched_steps,
}
use fingerprint_bridge.Std.Ascii.{elem}
use fingerprint_bridge.Fingerprint.Reader.{u16, u8, take_bytes, v8, v16, words, normalize, grease}
use fingerprint_bridge.Transport.ReadHello.{Arrived, read_hello}
use fingerprint_bridge.Transport.ReadHello.Completes.{read_hello-on_wire}
use fingerprint_bridge.Tests.Inputs.{hello_body, plain_hello, one_cipher, permit}
use fingerprint_bridge.Tls.Mirror.Reports.{Settled, mirror_reports}

-- A message cut into three records, the first inside the length.
abbrev fragments : List Fragment
fragments =
    (3, 1, 1 ∷ 0 ∷ 0 ∷ [])
    ∷ (3, 1, 41 ∷ 3 ∷ 3 ∷ replicate 32 0)
    ∷ (3, 3, 0 ∷ 0 ∷ 2 ∷ 0x13 ∷ 1 ∷ 1 ∷ 0 ∷ [])
    ∷ []

client_hello-on_wire_example :
    client_hello (λ s. s) (λ s. s) (on_wire fragments) ≡ parsed (λ s. s) (λ s. s) hello_body
client_hello-on_wire_example =
    client_hello-on_wire (λ s. s) (λ s. s) 0 0 41 hello_body refl (omega arith) fragments
      (omega arith, (omega arith, (omega arith, tt))) (omega arith) refl

read_hello-on_wire_example :
    (arrived : Arrived) × (read_hello (λ s. s) (λ s. s) (on_wire fragments ++ 23 ∷ []) ≡ ok arrived)
    × (arrived.hello ≡ plain_hello)
unfolding parse_hello u16 take_bytes v8 u8 v16 words normalize grease
read_hello-on_wire_example =
    read_hello-on_wire (λ s. s) (λ s. s) 0 0 41 hello_body refl (omega arith) fragments (23 ∷ [])
      plain_hello (omega arith, (omega arith, (omega arith, tt))) (omega arith) refl refl

-- A hello of a GREASE suite and two others.
abbrev suites : List ℕ
suites = 0x0a0a ∷ 0x1301 ∷ 0x9999 ∷ []

abbrev modern : TlsHello
modern = record (start 0x303 suites (0 ∷ [])) {
  extensions = 16 ∷ 0 ∷ [];
  supported_versions = 0x304 ∷ [];
}

ja3_string-eq_iff_example :
    (ja3_string modern ≡ ja3_string (record modern { ciphers = 0x1301 ∷ 0x9999 ∷ [] }))
    ↔ (ja3_fields modern ≡ ja3_fields (record modern { ciphers = 0x1301 ∷ 0x9999 ∷ [] }))
ja3_string-eq_iff_example =
    ja3_string-eq_iff modern (record modern { ciphers = 0x1301 ∷ 0x9999 ∷ [] })

ja4-Perm_example :
    ja4 (λ s. s) (λ s. s) ok modern
    ≡ ja4 (λ s. s) (λ s. s) ok (record modern { ciphers = suites; extensions = 0 ∷ 16 ∷ [] })
ja4-Perm_example = ja4-Perm (λ s. s) (λ s. s) ok modern (Perm.refl suites) (Perm.swap 0 16 [])

extension_order-Perm_example :
    (extension_order true (16 ∷ 0 ∷ 16 ∷ 9 ∷ [])
      ≡ firsts (backend_extensions true) [] (16 ∷ 0 ∷ 16 ∷ 9 ∷ [])
        ++ absent (16 ∷ 0 ∷ 16 ∷ 9 ∷ []) (backend_extensions true))
    × Perm (extension_order true (16 ∷ 0 ∷ 16 ∷ 9 ∷ [])) (backend_extensions true)
extension_order-Perm_example = extension_order-Perm true (16 ∷ 0 ∷ 16 ∷ 9 ∷ [])

abbrev value_of {ℓ} : {A : Type ℓ} → Result A → A → A
value_of (ok a) b = a
value_of (err e) b = b

-- The calls and the reports, one of them of the suite that the backend does not have.
abbrev mirrored : List Call × List (List ℕ)
unfolding mirror
mirrored = value_of (mirror false one_cipher ok permit modern (text "a.example") none) ([], [])

mirror_reports_example : Settled false one_cipher modern mirrored.0 mirrored.1
unfolding mirror decode_all run_steps steps elem selected grease unpatched_steps
mirror_reports_example =
    mirror_reports false one_cipher ok permit modern (text "a.example") none mirrored.0 mirrored.1
      refl

-- A decoder whose frames are one byte, which stands for itself, as much of it as there is room for.
abbrev one_byte : ℕ → List ℕ → Result Decoded
one_byte n [] = err "empty frame"
one_byte n (c ∷ input) = ok (record {
  written = take n (c ∷ []);
  remaining = input;
  checksum_from_data = none;
  calculated_checksum = none;
})

no_frame {ℓ} : {A : Type ℓ} {d : Decoded} → Result.err "empty frame" ≡ ok d → A
no_frame e = cc e

one_byte_limited :
    (n : ℕ) (input : List ℕ) (d : Decoded) → one_byte n input ≡ ok d → length d.written ≤ n
one_byte_limited n [] d e = no_frame e
one_byte_limited n (c ∷ input) d e =
    subst (λ (x : Decoded). length x.written ≤ n) (ok-injective e)
      (omega (arith, length-take n (c ∷ [])))

one_byte_consumes :
    (n : ℕ) (input : List ℕ) (d : Decoded)
    → one_byte n input ≡ ok d
    → length d.remaining < length input
one_byte_consumes n [] d e = no_frame e
one_byte_consumes n (c ∷ input) d e =
    subst (λ (x : Decoded). length x.remaining < length (c ∷ input)) (ok-injective e) (omega arith)

abbrev bytewise : ZstdCrate
bytewise = record { decode = one_byte; limited = one_byte_limited; consumes = one_byte_consumes }

decompress_bounded_example :
    ((out : List ℕ)
      → decompress bytewise (7 ∷ 8 ∷ []) ≡ ok out
      → (1 ≤ length {A = ℕ} (7 ∷ 8 ∷ [])) × (length out ≤ max_certificate))
    × ((more : ℕ)
        → frames_loop bytewise (length {A = ℕ} (7 ∷ 8 ∷ []) + more) 0 (7 ∷ 8 ∷ [])
          ≡ frames_loop bytewise (length {A = ℕ} (7 ∷ 8 ∷ [])) 0 (7 ∷ 8 ∷ []))
decompress_bounded_example = decompress_bounded bytewise (7 ∷ 8 ∷ [])
