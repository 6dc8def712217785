-- ===== src/Hpack/Strings.antt =====
-- `put_string` of src/hpack_wire.rs: the Huffman coder is a 64-bit buffer of which the low `bits`
-- bits are still to be written.
pub mod Padding
use fingerprint_bridge.Base.{
  ℕ, zero, suc, ◌+◌, ◌-◌, ◌*◌, ◌/◌, ◌%◌, ◌^◌, List, [], ◌∷◌, ◌++◌, Bool, leb, ◌==◌, if◌then◌else◌,
  bit_or, length, get_elem?, Option, none, some,
}
use fingerprint_bridge.Base.Bits.{shr}
use fingerprint_bridge.Hpack.Integer.{put_int}
use fingerprint_bridge.Hpack.HuffmanCodes.{huffman_code_table}

-- `codes::HUFFMAN_CODE_TABLE[c]`. A byte is an index of the table, so the default is never read.
pub code_of : ℕ → ℕ × ℕ
code_of c = elim (get_elem? huffman_code_table c) [ none ↦ (0, 0) | some entry ↦ entry ]

pub record Coder : Type 0 where
  pub buffer : ℕ
  pub bits : ℕ
  pub encoded : List ℕ

-- `while bits >= 8 { bits -= 8; encoded.push((buffer >> bits) as u8) }`, on fuel.
flush : ℕ → Coder → Coder
flush zero s = s
flush (suc fuel) s =
    let more = flush fuel (record s {
      bits = s.bits - 8;
      encoded = s.encoded ++ shr s.buffer (s.bits - 8) % 256 ∷ [];
    }) in
    if leb 8 s.bits then more else s

-- The body of `for c in value`.
put_code : Coder → ℕ × ℕ → Coder
put_code s (code, width) =
    let bits = s.bits + width in
    flush bits (record s { buffer = bit_or (s.buffer * 2 ^ width % 2 ^ 64) code; bits = bits })

put_codes : Coder → List ℕ → Coder
put_codes s [] = s
put_codes s (c ∷ value) = put_codes (put_code s (code_of c)) value

-- The last byte is filled up with ones.
close : Coder → List ℕ
close s =
    if s.bits == 0
    then s.encoded
    else s.encoded ++ bit_or (s.buffer * 2 ^ (8 - s.bits) % 2 ^ 64 % 256) (shr 255 s.bits) ∷ []

pub huffman_encode : List ℕ → List ℕ
unfolding put_codes put_code flush close
huffman_encode value = close (put_codes (record { buffer = 0; bits = 0; encoded = [] }) value)

-- The bytes that `put_string` appends.
unfoldable pub put_string : List ℕ → Bool → List ℕ
unfolding huffman_encode code_of huffman_code_table put_int
put_string value huffman =
    if huffman
    then (let encoded = huffman_encode value in put_int (length encoded) 0x80 7 ++ encoded)
    else put_int (length value) 0 7 ++ value
