-- ===== src/Tls/Mirror.antt =====
-- `server_builder` and `mirror` of src/tls.rs. The backend (the `btls` crate and the functions of the
-- patched library) is a sequence of calls, each of which it accepts or refuses; `cipher_name` is
-- `SslCipher::from_value` with the cipher's name, and `decode_hex` is of the `hex` crate.
pub mod Calls
pub mod Sorting
pub mod Reports
use fingerprint_bridge.Base.{
  ℕ, ◌+◌, ◌%◌, List, [], ◌∷◌, ◌++◌, Bool, true, false, not, ◌&&◌, ◌||◌, Option, none, some, ◌==◌,
  ltb, leb, if◌then◌else◌, length, map, Result, ok, err, ◌>>=◌, ◌>>◌, ensure, String,
}
use fingerprint_bridge.Base.Bytes.{text, bytes_eq}
use fingerprint_bridge.Std.Ascii.{elem, any, is_empty, is_some}
use fingerprint_bridge.Std.Split.{join}
use fingerprint_bridge.Std.Format.{to_decimal}
use fingerprint_bridge.Fingerprint.Reader.{grease}
use fingerprint_bridge.Fingerprint.Hello.{TlsHello}
use fingerprint_bridge.Tls.Order.{with_feature, extension_order}
use fingerprint_bridge.Tls.Groups.{group, share, KeyShare}

-- The calls of `mirror` on the backend.
pub data Call : Type 0 where
  register_char2 register_x448 register_ed448 : Call
  set_ca_file : List ℕ → Call
  set_min_proto_version set_max_proto_version : ℕ → Call
  set_preserve_tls13_cipher_list : Bool → Call
  set_strict_cipher_list : List ℕ → Call
  set_grease_enabled : Bool → Call
  set_curves_list : List ℕ → Call
  set_verify_algorithm_prefs : List ℕ → Call
  set_alpn_protos : List ℕ → Call
  enable_ocsp_stapling enable_signed_cert_timestamps : Call
  no_ticket no_renegotiation no_psk_dhe_ke : Call
  add_certificate_compression_algorithm : ℕ → Call
  set_extension_permutation : List ℕ → Call
  into_ssl : List ℕ → Call
  set_bridge_profile : List ℕ → Bool → Call
  set_bridge_encrypt_then_mac set_bridge_status_request_v2 : Bool → Call
  set_bridge_ec_point_formats : List ℕ → Call
  set_bridge_cert_verify_algorithm_prefs : List ℕ → Call
  set1_client_key_shares : List ℕ → Call
  set_client_key_shares : List KeyShare → Call
  set_enable_ech_grease : Bool → Call

-- What `mirror` does: a call, or a check of its own.
pub data Step : Type 0 where
  call : Call → Step
  check : Bool → String → Step

-- The loops that sort what the client offered into what the backend has and what is reported.
module _ {ℓ} {A : Type ℓ} (skipped : ℕ → Bool) (known : ℕ → Option A) where
  unfoldable pub selected : List ℕ → List A
  selected [] = []
  selected (id ∷ ids) =
      if skipped id
      then selected ids
      else elim (known id) [ some a ↦ a ∷ selected ids | none ↦ selected ids ]

  unfoldable pub refused : List ℕ → List ℕ
  refused [] = []
  refused (id ∷ ids) =
      if skipped id
      then refused ids
      else elim (known id) [ some a ↦ refused ids | none ↦ id ∷ refused ids ]

-- `format!("unsupported ... {id}")`
abbrev pub unsupported : List ℕ → ℕ → List ℕ
unsupported what id = what ++ to_decimal id

-- `grease(*id) || *id == 0xff`
abbrev pub no_cipher : ℕ → Bool
no_cipher id = grease id || id == 0xff

-- The members of a list of identifiers, as themselves.
abbrev pub known_in : List ℕ → ℕ → Option ℕ
known_in table id = if elem id table then some id else none

-- `SIGNATURES`
unfoldable pub signatures : Bool → List ℕ
signatures patched =
    (if patched then 0x0202 ∷ 0x0302 ∷ 0x0402 ∷ 0x0502 ∷ 0x0602 ∷ [] else [])
    ++ (0x0201 ∷ 0x0203 ∷ [])
    ++ (if patched then 0x0301 ∷ 0x0303 ∷ [] else [])
    ++ (0x0401 ∷ 0x0501 ∷ 0x0601 ∷ 0x0403 ∷ 0x0503 ∷ 0x0603 ∷ 0x0804 ∷ 0x0805 ∷ 0x0806 ∷ 0x0807
        ∷ [])
    ++ (if patched
        then 0x0808 ∷ 0x0809 ∷ 0x080a ∷ 0x080b ∷ 0x081a ∷ 0x081b ∷ 0x081c ∷ 0x0904 ∷ 0x0905 ∷ 0x0906
          ∷ []
        else [])

-- `KNOWN`
unfoldable pub known_extensions : Bool → List ℕ
known_extensions patched =
    0
    ∷ 5
    ∷ 10
    ∷ 11
    ∷ 13
    ∷ 16
    ∷ with_feature patched 17 (
        18
        ∷ 21
        ∷ with_feature patched 22 (
            23
            ∷ 27
            ∷ 28
            ∷ 34
            ∷ 35
            ∷ 41
            ∷ 42
            ∷ 43
            ∷ 44
            ∷ 45
            ∷ 47
            ∷ with_feature patched 50 (51 ∷ 17513 ∷ 17613 ∷ 65037 ∷ 65281 ∷ [])))

-- The identifiers 1, 2 and 3 of Zlib, Brotli and Zstd.
abbrev pub compressions : List ℕ
compressions = 1 ∷ 2 ∷ 3 ∷ []

-- `join(":")`
abbrev pub colons : List (List ℕ) → List ℕ
colons [] = []
colons (s ∷ more) = s ++ join b':' more

abbrev pub never : ℕ → Bool
never id = false

-- A list under a test.
abbrev pub when {ℓ} : {A : Type ℓ} → Bool → List A → List A
when test xs = if test then xs else []

-- `if !xs.is_empty() { .. }`
abbrev pub unless_empty {ℓ} : {A : Type ℓ} → List A → List Step → List Step
unless_empty xs steps = if is_empty xs then [] else steps

-- `hex::decode` of each protocol, with its length in front: `p.len() as u8`.
unfoldable pub alpn_wire : List (List ℕ) → List ℕ
alpn_wire [] = []
alpn_wire (p ∷ ps) = length p % 256 ∷ (p ++ alpn_wire ps)

-- `ensure!(p == b"h2" || p == b"http/1.1", "unsupported ALPN")`
abbrev pub alpn_known : List ℕ → Bool
alpn_known p = bytes_eq p (text "h2") || bytes_eq p (text "http/1.1")

-- The texts that are pushed one after the other, by the loop that pushes them.
abbrev pub flatten : List (List (List ℕ)) → List (List ℕ)
flatten [] = []
flatten (texts ∷ more) = texts ++ flatten more

-- TLS 1.3 and nothing older.
unfoldable pub only_tls13 : TlsHello → Bool
only_tls13 hello =
    elem 0x0304 hello.supported_versions
    && not (any (λ v. not (grease v) && ltb v 0x0304) hello.supported_versions)

module _ (patched : Bool) (cipher_name : ℕ → Option (List ℕ)) where
  -- What is reported, in the order in which it is.
  unfoldable pub reports_by_kind : TlsHello → List (List (List ℕ))
  reports_by_kind hello =
      (map (unsupported (text "unsupported cipher ")) (refused no_cipher cipher_name hello.ciphers))
      ∷ (map (unsupported (text "unsupported group "))
          (refused grease (group patched) hello.groups))
      ∷ (map (unsupported (text "unsupported signature algorithm "))
          (refused grease (known_in (signatures patched)) hello.signature_algorithms))
      ∷ (when patched (
          map (unsupported (text "unsupported certificate signature algorithm "))
            (refused grease (known_in (signatures patched)) hello.signature_algorithms_cert)))
      ∷ (when (not patched && elem 0xff hello.ciphers)
          (text "renegotiation SCSV cannot be emitted by this backend" ∷ []))
      ∷ (map (unsupported (text "unsupported certificate compression "))
          (refused never (known_in compressions) hello.cert_compression))
      ∷ (map (unsupported (text "unsupported extension "))
          (refused grease (known_in (known_extensions patched)) hello.extensions))
      ∷ (when patched (
          map (unsupported (text "unsupported EC point format "))
            (refused never (known_in (0 ∷ 1 ∷ 2 ∷ [])) hello.point_formats)))
      ∷ (when (elem 17513 hello.extensions || elem 17613 hello.extensions)
          (text "ALPS not mirrored; compare extension diff" ∷ []))
      ∷ (when (elem 41 hello.extensions || elem 42 hello.extensions)
          (text "session resumption / 0-RTT not inherited" ∷ []))
      ∷ []

  unfoldable pub limitations : TlsHello → List (List ℕ)
  limitations hello = flatten (reports_by_kind hello)

  abbrev pub sends : TlsHello → ℕ → Bool
  sends hello id = elem id hello.extensions

  -- The ciphers of the patched profile: those the backend has, the GREASE values and the SCSV.
  unfoldable pub profile : List ℕ → List ℕ
  profile [] = []
  profile (id ∷ ids) =
      if no_cipher id || is_some (cipher_name id) then id ∷ profile ids else profile ids

  -- What stands under `#[cfg(feature = "patched-tls")]` behind `into_ssl`, up to the key shares.
  unfoldable pub patched_steps : TlsHello → List Step
  patched_steps hello =
      let formats = selected never (known_in (0 ∷ 1 ∷ 2 ∷ [])) hello.point_formats in
      let certificates =
        selected grease (known_in (signatures patched)) hello.signature_algorithms_cert in
      let shares =
        selected never (λ id. elim (group patched id) [ some name ↦ some id | none ↦ none ])
          hello.key_share_groups in
      call (set_bridge_profile (profile hello.ciphers) (sends hello 21))
        ∷ call (set_bridge_encrypt_then_mac (sends hello 22))
        ∷ call (set_bridge_status_request_v2 (sends hello 17))
        ∷ unless_empty formats (call (set_bridge_ec_point_formats formats) ∷ [])
      ++ unless_empty certificates (call (set_bridge_cert_verify_algorithm_prefs certificates) ∷ [])
      ++ unless_empty shares (call (set1_client_key_shares shares) ∷ [])

  unfoldable pub unpatched_steps : TlsHello → List Step
  unpatched_steps hello =
      let shares = selected never share hello.key_share_groups in
      unless_empty shares (call (set_client_key_shares shares) ∷ [])

  -- The steps of `mirror`, with the protocols decoded.
  unfoldable pub steps : TlsHello → List ℕ → Option (List ℕ) → List (List ℕ) → List Step
  steps hello host ca protocols =
      let names = selected no_cipher cipher_name hello.ciphers in
      let groups = selected grease (group patched) hello.groups in
      let prefs = selected grease (known_in (signatures patched)) hello.signature_algorithms in
      when patched (call register_char2 ∷ call register_x448 ∷ call register_ed448 ∷ [])
      ++ elim ca [ none ↦ [] | some path ↦ call (set_ca_file path) ∷ [] ]
      ++ call (set_min_proto_version (if only_tls13 hello then 0x0304 else 0x0303))
        ∷ when (not (elem 0x0304 hello.supported_versions))
            (call (set_max_proto_version 0x0303) ∷ [])
      ++ check (not (is_empty names)) "no supported client cipher suites"
        ∷ call (set_preserve_tls13_cipher_list true)
        ∷ call (set_strict_cipher_list (colons names))
        ∷ call (set_grease_enabled (any grease (hello.ciphers ++ hello.extensions)))
        ∷ unless_empty groups (call (set_curves_list (colons groups)) ∷ [])
      ++ unless_empty prefs (call (set_verify_algorithm_prefs prefs) ∷ [])
      ++ map (λ p. check (alpn_known p) "unsupported ALPN") protocols
      ++ unless_empty protocols (call (set_alpn_protos (alpn_wire protocols)) ∷ [])
      ++ when (sends hello 5) (call enable_ocsp_stapling ∷ [])
      ++ when (sends hello 18) (call enable_signed_cert_timestamps ∷ [])
      ++ when (not (sends hello 35)) (call no_ticket ∷ [])
      ++ when (not (sends hello 65281)) (call no_renegotiation ∷ [])
      ++ when (not (sends hello 45)) (call no_psk_dhe_ke ∷ [])
      ++ map (λ id. call (add_certificate_compression_algorithm id))
          (selected never (known_in compressions) hello.cert_compression)
      ++ call (set_extension_permutation (extension_order patched hello.extensions))
        ∷ call (into_ssl host)
        ∷ (if patched then patched_steps hello else unpatched_steps hello)
      ++ call (set_enable_ech_grease (sends hello 65037)) ∷ []

  module _ (decode_hex : List ℕ → Result (List ℕ))
      (accept : List Call → Call → Result (Unit {0})) where
    unfoldable pub decode_all : List (List ℕ) → Result (List (List ℕ))
    decode_all [] = ok []
    decode_all (p ∷ ps) = do q ← decode_hex p; qs ← decode_all ps; ok (q ∷ qs)

    -- The steps one after the other, each call after those that were made.
    unfoldable pub run_steps : List Call → List Step → Result (List Call)
    run_steps made [] = ok made
    run_steps made (call c ∷ more) = do accept made c; run_steps (made ++ c ∷ []) more
    run_steps made (check test message ∷ more) = do ensure test message; run_steps made more

    -- The calls that were made, and what is reported. The source decodes a protocol behind the check of
    -- the one before: only which of two errors comes first is different.
    unfoldable pub mirror : TlsHello → List ℕ → Option (List ℕ) → Result (List Call × List (List ℕ))
    mirror hello host ca = do
      protocols ← decode_all hello.alpn
      calls ← run_steps [] (steps hello host ca protocols)
      ok (calls, limitations hello)
