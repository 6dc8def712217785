-- ===== src/Hpack/Receiver/Strings.antt =====
-- Strings as a receiver reads them.
use mathlib.Core.Path.{subst}
use fingerprint_bridge.Base.{
  ℕ, ◌+◌, ◌-◌, ◌*◌, ◌^◌, ◌≤◌, ◌<◌, ◌≡◌, refl, sym, ap, ◌∙◌, List, [], ◌∷◌, ◌++◌, append_assoc,
  length, length-append, Bool, true, false, leb, le→leb, ok, arith,
}
use fingerprint_bridge.Base.Bits.{bit_set}
use fingerprint_bridge.Hpack.Integer.{integer, skip_string, put_int}
use fingerprint_bridge.Hpack.Integer.Prefix.{IsInt, IsInt-integer, put_int-IsInt, put_int_first}
use fingerprint_bridge.Hpack.Strings.{put_string, huffman_encode}
use fingerprint_bridge.Hpack.Strings.Padding.{codes_width, huffman_encode_padded, code_of_fits}
use fingerprint_bridge.Hpack.Receiver.{first_byte, IsString, plain, coded}

codes_width_le : (v : List ℕ) → codes_width v ≤ 30 * length v
codes_width_le [] = omega arith
codes_width_le (c ∷ v) = omega (arith, (code_of_fits c).0, codes_width_le v)

pub seven_bits_top : (x : ℕ) → x < 128 → bit_set (1 * 2 ^ 7 + x) 7 ≡ true
seven_bits_top x h = ground arith

seven_bits_low : (x : ℕ) → x < 128 → bit_set (0 * 2 ^ 7 + x) 7 ≡ false
seven_bits_low x h = ground arith

pub top_first :
    (n q : ℕ) (b : Bool)
    → ((x : ℕ) → x < 128 → bit_set (q * 2 ^ 7 + x) 7 ≡ b)
    → bit_set (first_byte (put_int n (q * 2 ^ 7) 7)) 7 ≡ b
top_first n q b h =
    let (x, rest, small, e) = put_int_first n q 7 (omega arith) in
    ap (λ (l : List ℕ). bit_set (first_byte l) 7) e ∙ h x (omega (arith, small))

pub put_string-IsString :
    (v : List ℕ) (huffman : Bool) → length v ≤ 1048576 → IsString (put_string v huffman) v
unfolding put_string
put_string-IsString v true small =
    let (pad, few, bits, number) = huffman_encode_padded v in
    coded (put_int (length (huffman_encode v)) 0x80 7) (huffman_encode v) refl
      (put_int-IsInt (length (huffman_encode v)) 1 7
        (omega (arith, small, few, bits, codes_width_le v)) (omega arith))
      (top_first (length (huffman_encode v)) 1 true seven_bits_top) (pad, few, bits, number)
put_string-IsString v false small =
    plain (put_int (length v) 0 7) refl
      (put_int-IsInt (length v) 0 7 (omega (arith, small)) (omega arith))
      (top_first (length v) 0 false seven_bits_low)

skip_payload :
    (pre front payload rest : List ℕ)
    → IsInt 7 front (length payload)
    → skip_string (pre ++ ((front ++ payload) ++ rest)) (length pre)
      ≡ ok (length pre + length (front ++ payload))
unfolding skip_string
skip_payload pre front payload rest h =
    let place : (front ++ payload) ++ rest ≡ front ++ (payload ++ rest) =
      append_assoc front payload rest in
    let read : integer (pre ++ (front ++ (payload ++ rest))) (length pre) 7
        ≡ ok (length payload, length pre + length front) =
      IsInt-integer pre front (payload ++ rest) 7 (length payload) h in
    let there : leb (length payload)
          (length (pre ++ (front ++ (payload ++ rest))) - (length pre + length front))
        ≡ true =
      le→leb _ _ (
        omega (
          arith,
          length-append pre (front ++ (payload ++ rest)),
          length-append front (payload ++ rest),
          length-append payload rest,
        )) in
    rw (place, read, there) (ap ok (omega (arith, length-append front payload)))

pub IsString-skip_string :
    (pre part rest v : List ℕ)
    → IsString part v
    → skip_string (pre ++ (part ++ rest)) (length pre) ≡ ok (length pre + length part)
IsString-skip_string pre part rest v (plain front e n top) =
    subst
      (λ (l : List ℕ). skip_string (pre ++ (l ++ rest)) (length pre) ≡ ok (length pre + length l))
      (sym e) (skip_payload pre front v rest n)
IsString-skip_string pre part rest v (coded front payload e n top huff) =
    subst
      (λ (l : List ℕ). skip_string (pre ++ (l ++ rest)) (length pre) ≡ ok (length pre + length l))
      (sym e) (skip_payload pre front payload rest n)
