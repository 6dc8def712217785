-- ===== src/Fingerprint/Evidence.antt =====
-- `TlsHello::evidence` of src/fingerprint.rs. `fields` is the serialization that `serde` derives.
use fingerprint_bridge.Base.{ℕ, List, [], ◌∷◌, Result}
use fingerprint_bridge.Base.Bytes.{text}
use fingerprint_bridge.Fingerprint.Hello.{TlsHello}
use fingerprint_bridge.Fingerprint.Json.{Json}
use fingerprint_bridge.Fingerprint.Ja3.{ja3, ja3_string}
use fingerprint_bridge.Fingerprint.Ja4.{ja4}

module _ (json : Json) (fields : TlsHello → json.Value) (md5 digest encode : List ℕ → List ℕ)
    (decode_hex : List ℕ → Result (List ℕ)) where
  unfoldable pub evidence : TlsHello → json.Value
  evidence hello = json.object (
      (text "ja3", json.string (ja3 md5 hello))
      ∷ (text "ja3_string", json.string (ja3_string hello))
      ∷ (text "ja4", json.string (ja4 digest encode decode_hex hello))
      ∷ (text "fields", fields hello)
      ∷ [])
