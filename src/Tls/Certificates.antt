-- ===== src/Tls/Certificates.antt =====
-- `Zstd::decompress` of src/tls.rs, over the decoder of the `ruzstd` crate. `Brotli` and `Zlib` copy the
-- output of the decoders of their crates.
pub mod Bounded
use fingerprint_bridge.Base.{
  ℕ, zero, suc, ◌+◌, ◌-◌, ◌^◌, ◌≤◌, ◌<◌, ◌≡◌, List, [], ◌∷◌, ◌++◌, Bool, true, not, Option, none,
  some, ◌==◌, leb, if◌then◌else◌, length, Result, ok, err, ◌>>=◌, ◌>>◌, ensure,
}
use fingerprint_bridge.Std.Ascii.{is_empty}

-- What the decoder makes of a frame: the bytes it wrote, the input behind the frame, and the two
-- checksums.
pub record Decoded : Type 0 where
  pub written : List ℕ
  pub remaining : List ℕ
  pub checksum_from_data : Option ℕ
  pub calculated_checksum : Option ℕ

-- The decoder, which writes at most `n` bytes under `take(n)`, and takes input where it succeeds.
pub record ZstdCrate : Type 0 where
  pub decode : ℕ → List ℕ → Result Decoded
  pub limited :
      (n : ℕ) (input : List ℕ) (d : Decoded) → decode n input ≡ ok d → length d.written ≤ n
  pub consumes :
      (n : ℕ) (input : List ℕ) (d : Decoded)
      → decode n input ≡ ok d
      → length d.remaining < length input

abbrev pub max_certificate : ℕ
max_certificate = 2 ^ 24 - 1

-- `if let Some(expected)`
abbrev pub checksum_fits : Option ℕ → Option ℕ → Bool
checksum_fits none calculated = true
checksum_fits (some expected) none = not true
checksum_fits (some expected) (some found) = expected == found

module _ (crate : ZstdCrate) where
  -- `while !remaining.is_empty()`, on fuel: what is written.
  unfoldable pub frames_loop : ℕ → ℕ → List ℕ → Result (List ℕ)
  frames_loop fuel total [] = ok []
  frames_loop zero total (c ∷ input) = err "out of fuel"
  frames_loop (suc fuel) total (c ∷ input) = do
    d ← crate.decode (max_certificate - total + 1) (c ∷ input)
    ensure (leb (total + length d.written) max_certificate) "oversized Zstandard certificate"
    ensure (checksum_fits d.checksum_from_data d.calculated_checksum) "Zstandard checksum mismatch"
    more ← frames_loop fuel (total + length d.written) d.remaining
    ok (d.written ++ more)

  unfoldable pub decompress : List ℕ → Result (List ℕ)
  decompress input = do
    ensure (not (is_empty input)) "empty Zstandard certificate"
    frames_loop (length input) 0 input
