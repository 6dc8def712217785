-- ===== src/Transport/HttpTap.antt =====
-- `HttpTap` of src/transport.rs: it copies what is read through a stream, or what is written.
pub mod OneWay
use fingerprint_bridge.Base.{ℕ, List, [], ◌∷◌, Bool, true, false, if◌then◌else◌, take}
use fingerprint_bridge.Transport.Capture.{HttpCapture, append}

-- What the stream behind did: it filled in bytes, took the first `n` of those it was given, or neither
-- (it was not ready, or failed).
pub data Event : Type 0 where
  filled : List ℕ → Event
  took : ℕ → List ℕ → Event
  nothing_read nothing_written : Event

-- `poll_read` and `poll_write`, with `on_read`.
unfoldable pub observe : Bool → Event → HttpCapture → HttpCapture
observe on_read (filled bytes) c = if on_read then append c bytes else c
observe on_read (took n b) c = if on_read then c else append c (take n b)
observe on_read nothing_read c = c
observe on_read nothing_written c = c

unfoldable pub observe_all : Bool → List Event → HttpCapture → HttpCapture
observe_all on_read [] c = c
observe_all on_read (event ∷ events) c = observe_all on_read events (observe on_read event c)
