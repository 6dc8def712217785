-- ===== src/Transport/Tap.antt =====
-- `Capture` and the `Tap` around an outgoing stream, of src/transport.rs: a copy of the bytes that were
-- written, until they hold a whole hello or are as many as one may have.
pub mod Prefix
use fingerprint_bridge.Base.{
  ℕ, ◌-◌, List, [], ◌∷◌, ◌++◌, Option, none, some, Bool, true, false, ◌||◌, ◌==◌, length, take, min,
  if◌then◌else◌, Result, ok, err,
}
use fingerprint_bridge.Fingerprint.Records.{max_hello, client_hello}

pub record Capture : Type 0 where
  pub bytes : List ℕ
  pub done : Bool

-- `Default`
abbrev pub idle : Capture
idle = record { bytes = []; done = false }

module _ (digest encode : List ℕ → List ℕ) where
  -- `matches!(client_hello(bytes), Ok(Some(_)))`
  unfoldable pub holds_hello : List ℕ → Bool
  holds_hello bytes = elim (client_hello digest encode bytes) [
    | ok found ↦ elim found [ some hello ↦ true | none ↦ false ]
    | err e ↦ false
  ]

  -- `poll_write` where the stream behind took the first `n` bytes of `b`.
  unfoldable pub poll_write : ℕ → List ℕ → Capture → Capture
  poll_write n b c =
      let bytes = c.bytes ++ take (min n (max_hello - length c.bytes)) b in
      if c.done
      then c
      else record { bytes = bytes; done = holds_hello bytes || length bytes == max_hello }

  -- A sequence of writes.
  unfoldable pub poll_writes : List (ℕ × List ℕ) → Capture → Capture
  poll_writes [] c = c
  poll_writes ((n, b) ∷ writes) c = poll_writes writes (poll_write n b c)
