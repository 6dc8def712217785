-- ===== src/Tests/Inputs.antt =====
-- Inputs that the runs share: a mapping, a parser of URLs and a decoder that are simple, and a table.
use fingerprint_bridge.Base.{
  ℕ, zero, suc, ◌-◌, List, [], ◌∷◌, ◌++◌, Option, none, some, ◌==◌, if◌then◌else◌, replicate,
  length, take, drop, Result, ok,
}
use fingerprint_bridge.Base.Bytes.{text}
use fingerprint_bridge.Rewrite.Mapping.{Url, Mapping}
use fingerprint_bridge.Fingerprint.Hello.{TlsHello, start}
use fingerprint_bridge.Tls.Mirror.{Call}
use fingerprint_bridge.Hpack.Table.{Header}
use fingerprint_bridge.Hpack.Rewriter.{HpackCrate}

-- The public name and the upstream, each on port 443.
abbrev pub public_name : List ℕ
public_name = text "b.example"

abbrev pub upstream_name : List ℕ
upstream_name = text "a.example"

abbrev pub bridge : Mapping
bridge = record {
  public = public_name;
  upstream = upstream_name;
  public_host = public_name;
  upstream_host = upstream_name;
  public_port = 443;
  upstream_port = 443;
}

-- `https://host/`, on the default port.
abbrev pub parse_plain : List ℕ → Result Url
parse_plain s =
    ok (record {
      host_str = some (take (length s - 9) (drop 8 s));
      port_or_known_default = some 443;
    })

abbrev pub get_method : Header
get_method = (text ":method", text "GET")

abbrev pub copies : ℕ → List Header
copies zero = []
copies (suc n) = get_method ∷ copies n

-- A decoder that finds a `GET` in every field.
abbrev pub get_crate : HpackCrate
get_crate = record {
  Decoder = ℕ;
  fresh = 0;
  decode = λ d bytes. ok (suc d, get_method ∷ []);
  static_table = copies 61;
}

-- The body of a hello with one suite and no extensions, a record with it, and what is parsed of it.
abbrev pub hello_body : List ℕ
hello_body = 3 ∷ 3 ∷ replicate 32 0 ++ 0 ∷ 0 ∷ 2 ∷ 0x13 ∷ 1 ∷ 1 ∷ 0 ∷ []

abbrev pub hello_record : List ℕ
hello_record = 22 ∷ 3 ∷ 1 ∷ 0 ∷ 45 ∷ 1 ∷ 0 ∷ 0 ∷ 41 ∷ hello_body

abbrev pub plain_hello : TlsHello
plain_hello = start 0x303 (0x1301 ∷ []) (0 ∷ [])

-- A backend that has one suite and refuses no call.
abbrev pub one_cipher : ℕ → Option (List ℕ)
one_cipher id = if id == 0x1301 then some (text "TLS_AES_128_GCM_SHA256") else none

abbrev pub permit : List Call → Call → Result (Unit {0})
permit made c = ok tt
