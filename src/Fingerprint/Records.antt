-- ===== src/Fingerprint/Records.antt =====
-- `client_hello` of src/fingerprint.rs: the handshake message behind the TLS records.
pub mod Fragments
use fingerprint_bridge.Base.{
  ℕ, zero, suc, ◌+◌, List, [], ◌∷◌, ◌++◌, Option, none, some, ◌==◌, leb, if◌then◌else◌, length,
  take, drop, Result, ok, err, ◌>>=◌, ◌>>◌, ensure,
}
use fingerprint_bridge.Http2.Frame.{be16, be24}
use fingerprint_bridge.Fingerprint.Hello.{TlsHello, parse_hello}

abbrev pub max_hello : ℕ
max_hello = 262144

module _ (digest encode : List ℕ → List ℕ) where
  -- The hello, if the handshake has all of it.
  unfoldable pub complete : List ℕ → Result (Option TlsHello)
  complete (kind ∷ a ∷ b ∷ c ∷ bytes) = do
    ensure (kind == 1) "expected ClientHello"
    ensure (leb (be24 a b c + 4) max_hello) "oversized ClientHello"
    let whole = (do hello ← parse_hello digest encode (take (be24 a b c) bytes); ok (some hello))
    if leb (be24 a b c) (length bytes) then whole else ok none
  complete handshake = ok none

  -- The loop over the records, on fuel: a record takes five bytes or more.
  unfoldable pub records_loop : ℕ → List ℕ → List ℕ → Result (Option TlsHello)
  records_loop (suc fuel) (kind ∷ major ∷ minor ∷ a ∷ b ∷ bytes) handshake = do
    ensure (kind == 22) "expected TLS handshake record"
    ensure (leb (be16 a b) 18432) "oversized TLS record"
    let handshake' = handshake ++ take (be16 a b) bytes
    let more = (do
      found ← complete handshake'
      elim found [
        | some hello ↦ ok (some hello)
        | none ↦ records_loop fuel (drop (be16 a b) bytes) handshake'
      ])
    if leb (be16 a b) (length bytes) then more else ok none
  records_loop zero (kind ∷ major ∷ minor ∷ a ∷ b ∷ bytes) handshake = err "out of fuel"
  records_loop fuel records handshake = ok none

  unfoldable pub client_hello : List ℕ → Result (Option TlsHello)
  client_hello records = do
    ensure (leb (length records) max_hello) "ClientHello capture limit exceeded"
    records_loop (length records) records []
