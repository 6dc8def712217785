-- ===== src/Hpack/Strings/Padding.antt =====
-- The Huffman coder writes the codes of the bytes one after the other, and fills up with ones.
use native.Mathlib.Nat.{one-le-pow, add-zero, le_refl}
use fingerprint_bridge.Base.{
  ℕ, zero, suc, ◌+◌, ◌-◌, ◌*◌, ◌/◌, ◌%◌, ◌^◌, ◌≤◌, ◌<◌, ◌≡◌, refl, sym, ap, ◌∙◌, Bool, true, ◌&&◌,
  List, [], ◌∷◌, ◌++◌, length, length-append, get_elem?, Option, none, some, ltb, leb, arith,
  bit_or, Bool-cases, inl, inr, ◌==◌,
}
use fingerprint_bridge.Base.Bits.{shr, bit_or-shifted, agree, agree_sound}
use fingerprint_bridge.Base.Powers.{two_pow_add, mod-shift_in, mod-byte, mod-mod_pow}
use fingerprint_bridge.Hpack.HuffmanCodes.{huffman_code_table}
use fingerprint_bridge.Hpack.Strings.{
  Coder, code_of, flush, put_code, put_codes, close, huffman_encode,
}

-- The number that bytes stand for, the first one highest, behind the number `acc`.
abbrev pub number_of : ℕ → List ℕ → ℕ
number_of acc [] = acc
number_of acc (b ∷ bs) = number_of (acc * 256 + b) bs

-- The codes of `value`, written one after the other, as a number and a count of bits.
abbrev pub codes_number : ℕ → List ℕ → ℕ
codes_number acc [] = acc
codes_number acc (c ∷ value) = codes_number (acc * 2 ^ (code_of c).1 + (code_of c).0) value

abbrev pub codes_width : List ℕ → ℕ
codes_width [] = 0
codes_width (c ∷ value) = (code_of c).1 + codes_width value

number_of-snoc :
    (acc : ℕ) (bs : List ℕ) (b : ℕ) → number_of acc (bs ++ b ∷ []) ≡ number_of acc bs * 256 + b
number_of-snoc acc [] b = refl
number_of-snoc acc (x ∷ bs) b = number_of-snoc (acc * 256 + x) bs b

-- Every entry of the table has at most 30 bits, and its number fits them.
fits : List (ℕ × ℕ) → Bool
fits [] = true
fits ((code, width) ∷ table) = leb width 30 && ltb code (2 ^ width) && fits table

fits-get :
    (table : List (ℕ × ℕ)) (c : ℕ) {code width : ℕ}
    → fits table ≡ true
    → get_elem? table c ≡ some (code, width)
    → (width ≤ 30) × (code < 2 ^ width)
unfolding fits
fits-get [] c h e = cc
fits-get ((code, width) ∷ table) zero h e = ground arith
fits-get ((code, width) ∷ table) (suc c) h e = fits-get table c (ground arith) e

table_fits : fits huffman_code_table ≡ true
unfolding fits huffman_code_table
table_fits = refl

pub code_of_fits : (c : ℕ) → ((code_of c).1 ≤ 30) × ((code_of c).0 < 2 ^ (code_of c).1)
unfolding code_of
code_of_fits c = go (get_elem? huffman_code_table c) refl
  where
    go :
        (o : Option (ℕ × ℕ))
        → get_elem? huffman_code_table c ≡ o
        → ((elim o as (λ x. ℕ × ℕ) [ none ↦ (0, 0) | some entry ↦ entry ]).1 ≤ 30)
          × ((elim o as (λ x. ℕ × ℕ) [ none ↦ (0, 0) | some entry ↦ entry ]).0
              < 2 ^ (elim o as (λ x. ℕ × ℕ) [ none ↦ (0, 0) | some entry ↦ entry ]).1)
    go none e = omega arith
    go (some (code, width)) e = fits-get huffman_code_table c table_fits e

-- The bits that the coder holds, written and not yet written, as a number and a count.
abbrev total : Coder → ℕ
total s = number_of 0 s.encoded * 2 ^ s.bits + s.buffer % 2 ^ s.bits

abbrev size : Coder → ℕ
size s = 8 * length s.encoded + s.bits

record Same (s t : Coder) : Type 0 where
  total_eq : total t ≡ total s
  size_eq : size t ≡ size s

abbrev round : Coder → Coder
round s = record s {
  bits = s.bits - 8;
  encoded = s.encoded ++ shr s.buffer (s.bits - 8) % 256 ∷ [];
}

round-Same : (s : Coder) → 8 ≤ s.bits → Same s (round s)
round-Same s h = record {
  total_eq =
      let b : ℕ = s.bits - 8 in
      let split : s.bits ≡ b + 8 = omega arith in
      rw number_of-snoc (
        omega (
          arith,
          split,
          ap (λ (k : ℕ). s.buffer % 2 ^ k) split,
          ap (λ (k : ℕ). number_of 0 s.encoded * 2 ^ k) split,
          mod-byte s.buffer b,
          ap (λ (t : ℕ). number_of 0 s.encoded * t) (two_pow_add b 8),
        ));
  size_eq = omega (arith, length-append s.encoded (shr s.buffer (s.bits - 8) % 256 ∷ []));
}

flush-Same :
    (fuel : ℕ) (s : Coder) → s.bits ≤ fuel → Same s (flush fuel s) × ((flush fuel s).bits < 8)
unfolding flush
flush-Same zero s h = (record { total_eq = refl; size_eq = refl }, omega arith)
flush-Same (suc fuel) s h = elim (Bool-cases (leb 8 s.bits)) [
  | inl more ↦
      let first = round-Same s (ground arith) in
      let (rest, few) = flush-Same fuel (round s) (omega arith) in
      rw more (
        record {
          total_eq = rest.total_eq ∙ first.total_eq;
          size_eq = rest.size_eq ∙ first.size_eq;
        },
        few,
      )
  | inr last ↦ rw last (record { total_eq = refl; size_eq = refl }, ground arith)
]

wrapped : (x d width : ℕ) → x * 2 ^ width % 2 ^ (d + width) ≡ x % 2 ^ d * 2 ^ width
wrapped x d width = omega (
  arith,
  mod-shift_in x d width 0 (one-le-pow width 2 (omega arith)),
  ap (λ (t : ℕ). t % 2 ^ (d + width)) (add-zero (x * 2 ^ width)),
)

-- One code goes in at the right, whatever wraps out of the buffer at the left.
shift_in :
    (x bits code width word : ℕ)
    → bits + width ≤ word
    → code < 2 ^ width
    → bit_or (x * 2 ^ width % 2 ^ word) code % 2 ^ (bits + width) ≡ x % 2 ^ bits * 2 ^ width + code
shift_in x bits code width word h hc =
    let d : ℕ = word - width - bits in
    let parts : word ≡ d + bits + width = omega arith in
    rw parts (
      rw wrapped (
        rw (bit_or-shifted (x % 2 ^ (d + bits)) width code hc)
          (rw (mod-shift_in (x % 2 ^ (d + bits)) bits width code hc) (rw mod-mod_pow refl))))

put_code_total :
    (s : Coder) (code width : ℕ)
    → s.bits < 8
    → width ≤ 30
    → code < 2 ^ width
    → (total (put_code s (code, width)) ≡ total s * 2 ^ width + code)
      × (size (put_code s (code, width)) ≡ size s + width)
      × ((put_code s (code, width)).bits < 8)
unfolding put_code
put_code_total s code width hb hw hc =
    let t : Coder = record s {
      buffer = bit_or (s.buffer * 2 ^ width % 2 ^ 64) code;
      bits = s.bits + width;
    } in
    let (same, few) = flush-Same (s.bits + width) t (le_refl _) in
    let entered : total t ≡ total s * 2 ^ width + code = omega (
      arith,
      shift_in s.buffer s.bits code width 64 (omega arith) hc,
      ap (λ (k : ℕ). number_of 0 s.encoded * k) (two_pow_add s.bits width),
    ) in
    (same.total_eq ∙ entered, same.size_eq ∙ omega arith, few)

put_codes_total :
    (value : List ℕ) (s : Coder)
    → s.bits < 8
    → (total (put_codes s value) ≡ codes_number (total s) value)
      × (size (put_codes s value) ≡ size s + codes_width value)
      × ((put_codes s value).bits < 8)
unfolding put_codes
put_codes_total [] s hb = (refl, omega arith, hb)
put_codes_total (c ∷ value) s hb =
    let (hw, hc) = code_of_fits c in
    let (t, z, few) = put_code_total s (code_of c).0 (code_of c).1 hb hw hc in
    let (t', z', few') = put_codes_total value (put_code s (code_of c)) few in
    (t' ∙ ap (λ (n : ℕ). codes_number n value) t, omega (arith, z, z'), few')

-- The ones that fill the last byte.
ones : (bits : ℕ) → bits < 8 → 255 / 2 ^ bits + 1 ≡ 2 ^ (8 - bits)
unfolding agree
ones = agree_sound (λ b. 255 / 2 ^ b + 1) (λ b. 2 ^ (8 - b)) 8 refl

last_byte :
    (x bits : ℕ)
    → bits < 8
    → bit_or (x * 2 ^ (8 - bits) % 2 ^ 64 % 256) (shr 255 bits)
      ≡ x % 2 ^ bits * 2 ^ (8 - bits) + (2 ^ (8 - bits) - 1)
last_byte x bits h =
    let k : ℕ = 8 - bits in
    let eight : bits + k ≡ 8 = omega arith in
    let cut : x * 2 ^ k % 2 ^ 64 % 256 ≡ x % 2 ^ bits * 2 ^ k =
      mod-mod_pow (x * 2 ^ k) 56 8 ∙ (rw eight at (wrapped x bits k)) in
    let filled : shr 255 bits ≡ 2 ^ k - 1 = omega (arith, ones bits h) in
    rw (cut, filled) (bit_or-shifted (x % 2 ^ bits) k (2 ^ k - 1) (omega (arith, ones bits h)))

close_total :
    (s : Coder)
    → s.bits < 8
    → (pad : ℕ) × (pad < 8)
      × (8 * length (close s) ≡ size s + pad)
      × (number_of 0 (close s) ≡ total s * 2 ^ pad + (2 ^ pad - 1))
unfolding close
close_total s h = elim (Bool-cases (s.bits == 0)) [
  | inl none_left ↦
      let zero_bits : s.bits ≡ 0 = ground arith in
      (
        0,
        omega arith,
        rw none_left (omega arith),
        rw none_left (
            omega (
              arith,
              ap (λ (k : ℕ). s.buffer % 2 ^ k) zero_bits,
              ap (λ (k : ℕ). number_of 0 s.encoded * 2 ^ k) zero_bits,
            )),
      )
  | inr some_left ↦
      let k : ℕ = 8 - s.bits in
      let eight : s.bits + k ≡ 8 = omega arith in
      (
        k,
        ground arith,
        rw some_left (
            omega (
              arith,
              length-append s.encoded
                  (bit_or (s.buffer * 2 ^ k % 2 ^ 64 % 256) (shr 255 s.bits) ∷ []),
            )),
        rw some_left (
            rw number_of-snoc (
              omega (
                arith,
                last_byte s.buffer s.bits h,
                ap (λ (t : ℕ). number_of 0 s.encoded * t)
                    (sym (two_pow_add s.bits k) ∙ ap (λ (t : ℕ). 2 ^ t) eight),
              ))),
      )
]

-- The encoding of any bytes is, bit for bit, the codes of the table one after the other, filled up
-- to whole bytes by fewer than eight ones (RFC 7541, 5.2).
pub huffman_encode_padded :
    (value : List ℕ)
    → (pad : ℕ) × (pad < 8)
      × (8 * length (huffman_encode value) ≡ codes_width value + pad)
      × (number_of 0 (huffman_encode value) ≡ codes_number 0 value * 2 ^ pad + (2 ^ pad - 1))
unfolding huffman_encode
huffman_encode_padded value =
    let start : Coder = record { buffer = 0; bits = 0; encoded = [] } in
    let (t, z, few) = put_codes_total value start (omega arith) in
    let (pad, small, len, num) = close_total (put_codes start value) few in
    (pad, small, omega (arith, len, z), num ∙ ap (λ (n : ℕ). n * 2 ^ pad + (2 ^ pad - 1)) t)
