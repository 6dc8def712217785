-- ===== src/Fingerprint/Reader.antt =====
-- `grease`, `normalize`, `Reader` and `words` of src/fingerprint.rs. A reader is the bytes behind its
-- position: its operations return what they read and the bytes behind that.
pub mod Words
pub mod Grease
use fingerprint_bridge.Base.{
  ℕ, ◌+◌, ◌*◌, ◌%◌, ◌/◌, ◌^◌, bit_and, List, [], ◌∷◌, Bool, ◌&&◌, ◌==◌, leb, if◌then◌else◌, length,
  take, drop, Result, ok, err, ◌>>=◌, ◌>>◌, ensure,
}
use fingerprint_bridge.Base.Bits.{shr}
use fingerprint_bridge.Std.Ascii.{is_empty}
use fingerprint_bridge.Http2.Frame.{be16}

unfoldable pub grease : ℕ → Bool
grease n = bit_and n 0x0f0f == 0x0a0a && shr n 8 == bit_and n 255

unfoldable pub normalize : ℕ → ℕ
normalize n = if grease n then 0x0a0a else n

abbrev pub Reader : Type 0
Reader = List ℕ

-- `Reader::take`
unfoldable pub take_bytes : ℕ → Reader → Result (List ℕ × Reader)
take_bytes n r = do ensure (leb n (length r)) "truncated field"; ok (take n r, drop n r)

unfoldable pub u8 : Reader → Result (ℕ × Reader)
u8 [] = err "truncated field"
u8 (a ∷ r) = ok (a, r)

unfoldable pub u16 : Reader → Result (ℕ × Reader)
u16 (a ∷ b ∷ r) = ok (be16 a b, r)
u16 _ = err "truncated field"

unfoldable pub v8 : Reader → Result (List ℕ × Reader)
v8 r = do (n, r') ← u8 r; take_bytes n r'

unfoldable pub v16 : Reader → Result (List ℕ × Reader)
v16 r = do (n, r') ← u16 r; take_bytes n r'

unfoldable pub done : Reader → Result (Unit {0})
done r = ensure (is_empty r) "trailing data"

unfoldable pub words : List ℕ → Result (List ℕ)
words [] = ok []
words (a ∷ []) = err "odd u16 vector"
words (a ∷ b ∷ bytes) = do rest ← words bytes; ok (normalize (be16 a b) ∷ rest)
