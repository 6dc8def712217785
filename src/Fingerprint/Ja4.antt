-- ===== src/Fingerprint/Ja4.antt =====
-- `ja4` of src/fingerprint.rs. `digest` is SHA-256 in hexadecimal; `decode_hex` and `encode` are of the
-- `hex` crate.
pub mod Order
use fingerprint_bridge.Base.{
  ℕ, ◌-◌, List, [], ◌∷◌, ◌++◌, Bool, true, false, not, ◌&&◌, Option, none, some, ◌==◌, leb,
  if◌then◌else◌, length, take, drop, map, min, max, Result, ok, err,
}
use fingerprint_bridge.Base.Bytes.{text}
use fingerprint_bridge.Std.Ascii.{elem, is_alphanumeric, is_empty}
use fingerprint_bridge.Std.Format.{to_decimal_02, to_hex_04}
use fingerprint_bridge.Hpack.Rewriter.{byte_at}
use fingerprint_bridge.Fingerprint.Hello.{TlsHello}
use fingerprint_bridge.Fingerprint.Ja3.{filtered, joined}

-- `sort_unstable`: of numbers, which are equal or not, there is one sorted order.
unfoldable pub insert_sorted : ℕ → List ℕ → List ℕ
insert_sorted n [] = n ∷ []
insert_sorted n (k ∷ ks) = if leb n k then n ∷ k ∷ ks else k ∷ insert_sorted n ks

unfoldable pub sort : List ℕ → List ℕ
sort [] = []
sort (n ∷ ns) = insert_sorted n (sort ns)

-- `into_iter().max()`
unfoldable pub maximum : List ℕ → Option ℕ
maximum [] = none
maximum (n ∷ ns) = elim (maximum ns) [ none ↦ some n | some m ↦ some (max n m) ]

abbrev pub version_text : ℕ → List ℕ
version_text version =
    if version == 0x304
    then text "13"
    else if version == 0x303
    then text "12"
    else if version == 0x302
    then text "11"
    else if version == 0x301
    then text "10"
    else if version == 0x300
    then text "s3"
    else if version == 2
    then text "s2"
    else text "00"

-- `e.retain(|n| *n != 0 && *n != 16)`
unfoldable pub retained : List ℕ → List ℕ
retained [] = []
retained (n ∷ ns) = if n == 0 then retained ns else if n == 16 then retained ns else n ∷ retained ns

-- `list`
abbrev pub hex_list : List ℕ → List ℕ
hex_list ns = joined b',' (map to_hex_04 ns)

module _ (digest encode : List ℕ → List ℕ) (decode_hex : List ℕ → Result (List ℕ)) where
  -- The first and the last character, of the protocol or of its hexadecimal text.
  unfoldable pub alpn_text : List ℕ → List ℕ
  alpn_text s =
      let a = byte_at s 0 in
      let z = byte_at s (length s - 1) in
      let h = encode s in
      if is_alphanumeric a && is_alphanumeric z
      then a ∷ z ∷ []
      else take 1 h ++ drop (length h - 1) h

  unfoldable pub alpn_of : List (List ℕ) → List ℕ
  alpn_of [] = text "00"
  alpn_of (p ∷ ps) = elim (decode_hex p) [
    | err e ↦ text "00"
    | ok s ↦ if is_empty s then text "00" else alpn_text s
  ]

  unfoldable pub hash : List ℕ → List ℕ
  hash s = if is_empty s then text "000000000000" else take 12 (digest s)

  unfoldable pub version_of : TlsHello → List ℕ
  version_of hello = elim (maximum (filtered hello.supported_versions)) [
    | none ↦ version_text hello.legacy_version
    | some version ↦ version_text version
  ]

  -- `exts`, of the sorted extensions and the signature algorithms.
  unfoldable pub extensions_text : List ℕ → List ℕ → List ℕ
  extensions_text e sigs =
      if not (is_empty e) && not (is_empty sigs)
      then hex_list e ++ (b'_' ∷ hex_list sigs)
      else hex_list e

  unfoldable pub ja4 : TlsHello → List ℕ
  ja4 hello =
      let c = filtered hello.ciphers in
      let e = filtered hello.extensions in
      b't' ∷ version_of hello
      ++ (if elem 0 hello.extensions then b'd' else b'i') ∷ to_decimal_02 (min (length c) 99)
      ++ to_decimal_02 (min (length e) 99)
      ++ alpn_of hello.alpn
      ++ b'_' ∷ hash (hex_list (sort c))
      ++ b'_' ∷ hash (extensions_text (sort (retained e)) (filtered hello.signature_algorithms))
