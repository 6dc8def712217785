-- ===== src/Transport/ReadHello.antt =====
-- `read_hello` of src/transport.rs: the TLS records that a client sends up to the end of its hello.
-- The stream is the list of the bytes that come before it ends; `read_exact` fails on a shorter one.
pub mod Completes
pub mod Consumes
use fingerprint_bridge.Base.{
  ℕ, zero, suc, ◌+◌, List, [], ◌∷◌, ◌++◌, Option, none, some, ◌==◌, leb, ◌&&◌, if◌then◌else◌,
  length, take, drop, Result, ok, err, ◌>>=◌, ◌>>◌, ensure,
}
use fingerprint_bridge.Http2.Frame.{be16}
use fingerprint_bridge.Fingerprint.Hello.{TlsHello}
use fingerprint_bridge.Fingerprint.Records.{max_hello, client_hello}

-- What `read_hello` returns, and what it leaves of the stream.
pub record Arrived : Type 0 where
  pub bytes : List ℕ
  pub hello : TlsHello
  pub stream : List ℕ

module _ (digest encode : List ℕ → List ℕ) where
  -- The loop, on fuel: a round takes five bytes or more. `bytes` is what the rounds before have read.
  unfoldable pub read_loop : ℕ → List ℕ → List ℕ → Result Arrived
  read_loop (suc fuel) bytes (kind ∷ major ∷ minor ∷ a ∷ b ∷ stream) = do
    ensure (kind == 22) "expected TLS handshake"
    ensure (leb (be16 a b) 18432 && leb (length bytes + be16 a b + 5) max_hello)
        "ClientHello too large"
    ensure (leb (be16 a b) (length stream)) "early eof"
    let bytes' = bytes ++ (kind ∷ major ∷ minor ∷ a ∷ b ∷ take (be16 a b) stream)
    let more = read_loop fuel bytes' (drop (be16 a b) stream)
    found ← client_hello digest encode bytes'
    elim found [
      | some hello ↦ ok (record { bytes = bytes'; hello = hello; stream = drop (be16 a b) stream })
      | none ↦ more
    ]
  read_loop zero bytes (kind ∷ major ∷ minor ∷ a ∷ b ∷ stream) = err "out of fuel"
  read_loop fuel bytes stream = err "early eof"

  unfoldable pub read_hello : List ℕ → Result Arrived
  read_hello stream = read_loop (length stream) [] stream
