-- ===== src/Http2/Settings.antt =====
-- `settings` of src/h2.rs.
use fingerprint_bridge.Base.{
  ℕ, ◌%◌, List, [], ◌∷◌, ◌&&◌, ◌==◌, length, if◌then◌else◌, Result, ok, ◌>>◌, ensure,
}
use fingerprint_bridge.Base.Bits.{bit_set}
use fingerprint_bridge.Std.Ascii.{is_empty}
use fingerprint_bridge.Http2.Frame.{Frame, be16, be32}

-- `chunks_exact(6)`, each as an identifier and a value.
unfoldable pub entries : List ℕ → List (ℕ × ℕ)
entries (a ∷ b ∷ c ∷ d ∷ e ∷ f ∷ rest) = (be16 a b, be32 c d e f) ∷ entries rest
entries _ = []

unfoldable pub settings : Frame → Result (List (ℕ × ℕ))
unfolding entries
settings frame = do
  ensure (frame.kind == 4 && frame.stream == 0) "invalid SETTINGS"
  if bit_set frame.flags 0
      then (do ensure (is_empty frame.payload) "SETTINGS ACK payload"; ok [])
      else (do
        ensure (length frame.payload % 6 == 0) "malformed SETTINGS"
        ok (entries frame.payload))
