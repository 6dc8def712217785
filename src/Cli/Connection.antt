-- ===== src/Cli/Connection.antt =====
-- `handle_connection` of src/main.rs and `server_builder` of src/tls.rs: from the client's first byte to
-- the choice of the bridge.
pub mod Gate
use fingerprint_bridge.Base.{
  ℕ, List, [], ◌∷◌, Bool, true, false, not, ◌||◌, ◌==◌, String, Option, none, some, if◌then◌else◌,
  Result, ok, err, ◌>>=◌, ◌>>◌, ensure,
}
use fingerprint_bridge.Base.Bytes.{text, bytes_eq}
use fingerprint_bridge.Std.Trim.{trim_start_matches, trim_end_matches}
use fingerprint_bridge.Rewrite.Mapping.{Mapping}
use fingerprint_bridge.Fingerprint.Hello.{TlsHello}
use fingerprint_bridge.Fingerprint.Records.{client_hello}
use fingerprint_bridge.Fingerprint.Json.{Json}
use fingerprint_bridge.Fingerprint.Evidence.{evidence}
use fingerprint_bridge.Fingerprint.Compare.{Comparison, compare}
use fingerprint_bridge.Tls.Mirror.{Call, mirror}
use fingerprint_bridge.Transport.ReadHello.{Arrived, read_hello}
use fingerprint_bridge.Transport.Tap.{Capture, idle, poll_writes}

-- What the connection's code has of the packages it is built with.
pub record Packages : Type 1 where
  pub json : Json
  pub fields : TlsHello → json.Value
  pub md5 : List ℕ → List ℕ
  pub digest : List ℕ → List ℕ
  pub encode : List ℕ → List ℕ
  pub decode_hex : List ℕ → Result (List ℕ)
  pub patched : Bool
  pub cipher_name : ℕ → Option (List ℕ)
  pub accept : List Call → Call → Result (Unit {0})

-- The fields of `Serve` that a connection reads.
pub record Serve : Type 0 where
  pub ca : Option (List ℕ)
  pub reports : Bool
  pub strict_tls : Bool

-- The calls that `server_builder` makes.
pub data ServerCall : Type 0 where
  mozilla_intermediate clear_no_tlsv1_3 : ServerCall
  set_min_version set_max_version : ℕ → ServerCall

unfoldable pub server_builder : ℕ → Result (List ServerCall)
server_builder version = do
  ensure (version == 0x0303 || version == 0x0304) "unsupported negotiated origin TLS version"
  ok (
      mozilla_intermediate
      ∷ clear_no_tlsv1_3
      ∷ set_min_version version
      ∷ set_max_version version
      ∷ [])

-- What the outside answers: the connection to the origin with the handshake over it, which says what
-- was written through the tap; the files of reports; the protocol and the version that were
-- negotiated; and the handshake with the client, over what was read of its stream and the rest.
pub record Outside : Type 0 where
  pub connect : List Call → Result (List (ℕ × List ℕ))
  pub write_reports : Result (Unit {0})
  pub selected_alpn_protocol : Option (List ℕ)
  pub version2 : Option ℕ
  pub accept_client : List ServerCall → List ℕ → Arrived → Result (Unit {0})

pub data Bridge : Type 0 where
  h2_bridge h1_bridge : Bridge

-- `context`
abbrev pub context {ℓ} : {A : Type ℓ} → Option A → String → Result A
context none message = err message
context (some a) message = ok a

abbrev pub unwrap_or {ℓ} : {A : Type ℓ} → Option A → A → A
unwrap_or none a = a
unwrap_or (some b) a = b

-- `trim_matches(['[', ']'])`
unfoldable pub without_brackets : List ℕ → List ℕ
without_brackets host =
    let bracket = λ (c : ℕ). c == b'[' || c == b']' in
    trim_end_matches bracket (trim_start_matches bracket host)

module _ (packages : Packages) where
  -- `json!({"tls": ..., "http": null, "tcp": null})`
  unfoldable pub layers_of : TlsHello → packages.json.Value
  layers_of hello = packages.json.object (
      (
        text "tls",
        evidence packages.json packages.fields packages.md5 packages.digest packages.encode
            packages.decode_hex hello,
      )
      ∷ (text "http", packages.json.null)
      ∷ (text "tcp", packages.json.null)
      ∷ [])

  -- What the connection goes on with.
  pub record Session : Type 0 where
    pub arrived : Arrived
    pub limitations : List (List ℕ)
    pub outgoing : TlsHello
    pub comparison : Comparison packages.json
    pub selected : List ℕ
    pub version : ℕ

  -- `setup`, on the bytes that the client sends.
  unfoldable pub setup : Serve → Mapping → Outside → List ℕ → Result Session
  setup cfg m outside sent = do
    arrived ← read_hello packages.digest packages.encode sent
    (calls, limitations) ←
        mirror packages.patched packages.cipher_name packages.decode_hex packages.accept
          arrived.hello (without_brackets m.upstream_host) cfg.ca
    writes ← outside.connect calls
    captured ←
        client_hello packages.digest packages.encode
          (poll_writes packages.digest packages.encode writes idle).bytes
    outgoing ← context captured "outbound ClientHello not captured"
    comparison ←
        compare packages.json (layers_of arrived.hello) (layers_of outgoing) (text "tls" ∷ [])
    (if cfg.reports then outside.write_reports else ok tt)
    ensure (not cfg.strict_tls || comparison.pass) "strict TLS comparison failed; no HTTP forwarded"
    let selected = unwrap_or outside.selected_alpn_protocol (text "http/1.1")
    ensure (bytes_eq selected (text "h2") || bytes_eq selected (text "http/1.1"))
        "unsupported upstream ALPN"
    version ← context outside.version2 "missing negotiated origin TLS version"
    builder ← server_builder version
    outside.accept_client builder selected arrived
    ok (record {
      arrived = arrived;
      limitations = limitations;
      outgoing = outgoing;
      comparison = comparison;
      selected = selected;
      version = version;
    })

  -- The bridge that is given the two connections.
  unfoldable pub bridge_of : Session → Bridge
  bridge_of s = if bytes_eq s.selected (text "h2") then h2_bridge else h1_bridge
