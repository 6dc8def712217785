-- ===== src/Transport/Capture.antt =====
-- `HttpCapture` of src/transport.rs: a copy of at most 1 MiB of the bytes that pass.
pub mod Appends
use fingerprint_bridge.Base.{
  ℕ, ◌+◌, ◌-◌, List, [], ◌∷◌, ◌++◌, Bool, true, false, not, ◌||◌, ◌==◌, length, take, min,
}

pub record HttpCapture : Type 0 where
  pub bytes : List ℕ
  pub truncated : Bool

-- `Default`
abbrev pub new : HttpCapture
new = record { bytes = []; truncated = false }

abbrev pub max_capture : ℕ
max_capture = 1048576

unfoldable pub append : HttpCapture → List ℕ → HttpCapture
append c bytes =
    let n = min (length bytes) (max_capture - length c.bytes) in
    record { bytes = c.bytes ++ take n bytes; truncated = c.truncated || not (n == length bytes) }

unfoldable pub append_all : HttpCapture → List (List ℕ) → HttpCapture
append_all c [] = c
append_all c (chunk ∷ chunks) = append_all (append c chunk) chunks
