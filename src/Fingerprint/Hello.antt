-- ===== src/Fingerprint/Hello.antt =====
-- `TlsHello` and `parse_hello` of src/fingerprint.rs. `digest` (SHA-256 in hexadecimal) and
-- `encode` (of the `hex` crate) are the packages' functions, and parameters.
use fingerprint_bridge.Base.{
  ℕ, zero, suc, List, [], ◌∷◌, ◌++◌, Bool, false, not, ◌||◌, ◌==◌, if◌then◌else◌, length, Result,
  ok, err, ◌>>=◌, ◌>>◌, ensure,
}
use fingerprint_bridge.Std.Ascii.{elem, is_empty}
use fingerprint_bridge.Fingerprint.Reader.{
  grease, normalize, Reader, take_bytes, u8, u16, v8, v16, done, words,
}

pub record TlsHello : Type 0 where
  pub legacy_version : ℕ
  pub ciphers : List ℕ
  pub extensions : List ℕ
  pub compression : List ℕ
  pub groups : List ℕ
  pub point_formats : List ℕ
  pub signature_algorithms : List ℕ
  pub signature_algorithms_cert : List ℕ
  pub supported_versions : List ℕ
  pub alpn : List (List ℕ)
  pub key_share_groups : List ℕ
  pub key_share_lengths : List ℕ
  pub cert_compression : List ℕ
  pub psk_modes : List ℕ
  pub sni_present : Bool
  pub other_extensions : List (ℕ × List ℕ)

-- The hello before its extensions.
abbrev pub start : ℕ → List ℕ → List ℕ → TlsHello
start version suites methods = record {
  legacy_version = version;
  ciphers = suites;
  extensions = [];
  compression = methods;
  groups = [];
  point_formats = [];
  signature_algorithms = [];
  signature_algorithms_cert = [];
  supported_versions = [];
  alpn = [];
  key_share_groups = [];
  key_share_lengths = [];
  cert_compression = [];
  psk_modes = [];
  sni_present = false;
  other_extensions = [];
}

-- A vector that is the whole of an extension.
abbrev pub whole : (Reader → Result (List ℕ × Reader)) → List ℕ → Result (List ℕ)
whole vector raw = do (bytes, v) ← vector raw; done v; ok bytes

abbrev pub whole_words : (Reader → Result (List ℕ × Reader)) → List ℕ → Result (List ℕ)
whole_words vector raw = do (bytes, v) ← vector raw; ns ← words bytes; done v; ok ns

-- The loops over the parts of an extension are on fuel: each part takes bytes.
unfoldable pub names : ℕ → Reader → Bool → Result Bool
names zero r present = if is_empty r then ok present else err "out of fuel"
names (suc fuel) [] present = ok present
names (suc fuel) r present = do
  (kind, r') ← u8 r
  (name, r'') ← v16 r'
  ensure (not (kind == 0) || not (is_empty name)) "empty SNI"
  names fuel r'' (kind == 0 || present)

module _ (digest encode : List ℕ → List ℕ) where
  unfoldable pub protocols : ℕ → Reader → Result (List (List ℕ))
  protocols zero r = if is_empty r then ok [] else err "out of fuel"
  protocols (suc fuel) [] = ok []
  protocols (suc fuel) r = do
    (p, r') ← v8 r
    ensure (not (is_empty p)) "empty ALPN"
    rest ← protocols fuel r'
    ok (encode p ∷ rest)

  -- The groups of the shares and the lengths of their keys.
  unfoldable pub shares : ℕ → Reader → Result (List ℕ × List ℕ)
  shares zero r = if is_empty r then ok ([], []) else err "out of fuel"
  shares (suc fuel) [] = ok ([], [])
  shares (suc fuel) r = do
    (group, r') ← u16 r
    (key, r'') ← v16 r'
    (more, lengths) ← shares fuel r''
    ok (normalize group ∷ more, length key ∷ lengths)

  -- `hello.other_extensions.push((id, digest(raw)))`
  abbrev pub push_other : ℕ → List ℕ → TlsHello → TlsHello
  push_other id raw hello = record hello {
    other_extensions = hello.other_extensions ++ (id, digest raw) ∷ [];
  }

  abbrev pub is_exempt : ℕ → Bool
  is_exempt id = id == 21 || id == 35 || id == 41 || id == 44 || id == 65037

  -- `match id`
  unfoldable pub extension : ℕ → List ℕ → TlsHello → Result TlsHello
  extension id raw hello =
      if id == 0
      then (do
        (bytes, v) ← v16 raw
        present ← names (length bytes) bytes hello.sni_present
        done v
        ok (record hello { sni_present = present }))
      else if id == 10
      then (do ns ← whole_words v16 raw; ok (record hello { groups = ns }))
      else if id == 11
      then (do bytes ← whole v8 raw; ok (record hello { point_formats = bytes }))
      else if id == 13
      then (do ns ← whole_words v16 raw; ok (record hello { signature_algorithms = ns }))
      else if id == 50
      then (do
        (bytes, v) ← v16 raw
        ns ← words bytes
        ensure (not (is_empty ns)) "empty certificate signature algorithms"
        done v
        ok (push_other id raw (record hello { signature_algorithms_cert = ns })))
      else if id == 16
      then (do
        bytes ← whole v16 raw
        ps ← protocols (length bytes) bytes
        ok (record hello { alpn = hello.alpn ++ ps }))
      else if id == 27
      then (do ns ← whole_words v8 raw; ok (record hello { cert_compression = ns }))
      else if id == 43
      then (do ns ← whole_words v8 raw; ok (record hello { supported_versions = ns }))
      else if id == 45
      then (do bytes ← whole v8 raw; ok (record hello { psk_modes = bytes }))
      else if id == 51
      then (do
        bytes ← whole v16 raw
        (ids, lengths) ← shares (length bytes) bytes
        ok (record hello {
          key_share_groups = hello.key_share_groups ++ ids;
          key_share_lengths = hello.key_share_lengths ++ lengths;
        }))
      else if is_exempt id
      then ok hello
      else ok (push_other id raw hello)

  -- The loop over the extensions, with the identifiers seen.
  unfoldable pub extensions_loop : ℕ → Reader → List ℕ → TlsHello → Result TlsHello
  extensions_loop zero r seen hello = if is_empty r then ok hello else err "out of fuel"
  extensions_loop (suc fuel) [] seen hello = ok hello
  extensions_loop (suc fuel) r seen hello = do
    (id, r') ← u16 r
    (raw, r'') ← v16 r'
    ensure (not (elem id seen)) "duplicate TLS extension"
    let named : TlsHello = record hello { extensions = hello.extensions ++ normalize id ∷ [] }
    hello' ← if grease id then ok named else extension id raw named
    extensions_loop fuel r'' (id ∷ seen) hello'

  unfoldable pub parse_hello : List ℕ → Result TlsHello
  parse_hello r = do
    (version, r) ← u16 r
    (random, r) ← take_bytes 32 r
    (session, r) ← v8 r
    (bytes, r) ← v16 r
    suites ← words bytes
    ensure (not (is_empty suites)) "empty ciphers"
    (methods, r) ← v8 r
    let hello = start version suites methods
    let rest = (do (ext, r) ← v16 r; done r; extensions_loop (length ext) ext [] hello)
    if is_empty r then ok hello else rest
