-- ===== src/Fingerprint/Ja3.antt =====
-- `ja3_string` and `ja3` of src/fingerprint.rs. `md5` is the package's digest, in hexadecimal.
pub mod Injective
use fingerprint_bridge.Base.{ℕ, List, [], ◌∷◌, ◌++◌, if◌then◌else◌, map}
use fingerprint_bridge.Std.Split.{join}
use fingerprint_bridge.Std.Format.{to_decimal}
use fingerprint_bridge.Fingerprint.Reader.{grease}
use fingerprint_bridge.Fingerprint.Hello.{TlsHello}

-- `filter(|n| !grease(*n))`
unfoldable pub filtered : List ℕ → List ℕ
filtered [] = []
filtered (n ∷ ns) = if grease n then filtered ns else n ∷ filtered ns

-- `join("-")`
abbrev pub joined : ℕ → List (List ℕ) → List ℕ
joined sep [] = []
joined sep (piece ∷ more) = piece ++ join sep more

-- `list`
unfoldable pub list : List ℕ → List ℕ
list ns = joined b'-' (map to_decimal (filtered ns))

unfoldable pub ja3_string : TlsHello → List ℕ
ja3_string hello =
    to_decimal hello.legacy_version
    ++ join b',' (
        list hello.ciphers
        ∷ list hello.extensions
        ∷ list hello.groups
        ∷ list hello.point_formats
        ∷ [])

unfoldable pub ja3 : (List ℕ → List ℕ) → TlsHello → List ℕ
ja3 md5 hello = md5 (ja3_string hello)
