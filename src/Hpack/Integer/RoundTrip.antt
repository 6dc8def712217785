-- ===== src/Hpack/Integer/RoundTrip.antt =====
-- `integer` reads back what `put_int` wrote.
use native.Mathlib.Nat.{div-add-mod, pow-suc, pow-le-pow_right, mod-eq_of_lt, le_refl, one-le-pow}
use fingerprint_bridge.Base.{
  ℕ, zero, suc, ◌+◌, ◌-◌, ◌*◌, ◌/◌, ◌%◌, ◌^◌, ◌≤◌, ◌<◌, ◌≡◌, refl, true, List, ◌∷◌, ◌++◌, length,
  drop-append, ok, arith, bit_or, ap, ◌∙◌, Bool-cases, inl, inr, leb, le→leb, lt→ltb, ltb→lt,
  ltb_self, ap₂, ltb,
}
use fingerprint_bridge.Base.Bits.{low_bits, bit_set, bit_or-top, low_bits-bit_or}
use fingerprint_bridge.Hpack.Integer.{integer, integer_loop, integer_from, put_int, put_groups}
use fingerprint_bridge.Hpack.Integer.Shape.{two_pow_add_seven}

split_group : (n s : ℕ) → n * 2 ^ s ≡ n % 128 * 2 ^ s + n / 128 * 2 ^ (s + 7)
split_group n s = omega (
  arith,
  ap (λ (t : ℕ). t * 2 ^ s) (div-add-mod n 128),
  ap (λ (t : ℕ). n / 128 * t) (two_pow_add_seven s),
)

-- One round of the loop, on a last byte and on a byte with the top bit set.
last_group :
    (n p acc shift : ℕ) (rest : List ℕ)
    → n < 128
    → shift ≤ 28
    → acc + n * 2 ^ shift < 2 ^ 64
    → integer_loop (n % 256 ∷ rest) p acc shift ≡ ok (acc + n * 2 ^ shift, p + 1)
unfolding integer_loop
last_group n p acc shift rest hn hs hf =
    let same : n % 256 % 128 ≡ n = omega arith in
    ground (arith, same, ap (λ (t : ℕ). t * 2 ^ shift) same)

inner_group :
    (g p acc shift : ℕ) (rest : List ℕ)
    → g < 128
    → shift ≤ 28
    → acc + g * 2 ^ shift < 2 ^ 64
    → integer_loop (bit_or g 128 ∷ rest) p acc shift
      ≡ integer_loop rest (p + 1) (acc + g * 2 ^ shift) (shift + 7)
unfolding integer_loop
inner_group g p acc shift rest hg hs hf =
    let same : low_bits (g + 128) 7 ≡ g = omega arith in
    let top : bit_set (g + 128) 7 ≡ true = ground arith in
    rw (bit_or-top g hg) (rw same (rw top (rw (le→leb _ _ hs) (rw (lt→ltb _ _ hf) refl))))

loop-put_groups :
    (fuel n p acc shift k : ℕ) (rest : List ℕ)
    → n ≤ fuel
    → shift + 7 * k ≡ 28
    → n < 128 ^ suc k
    → acc + n * 2 ^ shift < 2 ^ 64
    → integer_loop (put_groups fuel n ++ rest) p acc shift
      ≡ ok (acc + n * 2 ^ shift, p + length (put_groups fuel n))
unfolding put_groups
loop-put_groups zero n p acc shift k rest hf hs hn fits =
    last_group n p acc shift rest (omega arith) (omega arith) fits
loop-put_groups (suc fuel) n p acc shift zero rest hf hs hn fits =
    ground (arith, last_group n p acc shift rest)
loop-put_groups (suc fuel) n p acc shift (suc k) rest hf hs hn fits =
    elim (Bool-cases (leb 128 n)) [
      | inl more ↦ rw more (
          rw low (
            inner_group (n % 128) p acc shift _ (omega arith) (omega arith)
              (omega (arith, split_group n shift))
            ∙ loop-put_groups fuel (n / 128) (p + 1) (acc + n % 128 * 2 ^ shift) (shift + 7) k rest
                (omega arith) (omega arith) (omega (arith, pow-suc 128 (suc k)))
                (omega (arith, split_group n shift))
            ∙ ap ok (ap₂ (λ (a b : ℕ). (a, b)) (omega (arith, split_group n shift)) (omega arith))))
      | inr last ↦ rw last (last_group n p acc shift rest (ground arith) (omega arith) fits)
    ]
  where
    low : low_bits (n % 256) 7 ≡ n % 128
    low = omega arith

module _ (n q bits p : ℕ) (rest : List ℕ) (hn : n < 2 ^ 35) (hb : bits ≤ 8) where
  prefix_bound : 2 ^ bits ≤ 256
  prefix_bound = pow-le-pow_right {n = 2} (omega arith) {i = bits} {j = 8} hb

  head : (x : ℕ) → x < 2 ^ bits → low_bits (bit_or (q * 2 ^ bits) (x % 256)) bits ≡ x
  head x h =
      rw (mod-eq_of_lt {n = x} {m = 256} (omega (arith, prefix_bound))) (low_bits-bit_or q bits x h)

  groups :
      2 ^ bits - 1 ≤ n
      → integer_loop
          (put_groups (n - (2 ^ bits - 1)) (n - (2 ^ bits - 1)) ++ rest)
          (p + 1)
          (2 ^ bits - 1)
          0
        ≡ ok (n, p + suc (length (put_groups (n - (2 ^ bits - 1)) (n - (2 ^ bits - 1)))))
  groups h =
      loop-put_groups (n - (2 ^ bits - 1)) _ (p + 1) (2 ^ bits - 1) 0 4 rest (le_refl _) refl
        (omega arith) (omega (arith, prefix_bound))
      ∙ ap ok (ap₂ (λ (a b : ℕ). (a, b)) (omega arith) (omega arith))

  from-put_int :
      integer_from (put_int n (q * 2 ^ bits) bits ++ rest) p bits
      ≡ ok (n, p + length (put_int n (q * 2 ^ bits) bits))
  unfolding integer_from put_int
  from-put_int = elim (Bool-cases (ltb n (2 ^ bits - 1))) [
    | inl small ↦ rw small (rw (head n (omega (arith, ltb→lt _ _ small))) (rw small refl))
    | inr large ↦ rw large (
        rw (head (2 ^ bits - 1) (omega (arith, one-le-pow bits 2)))
          (rw (ltb_self (2 ^ bits - 1)) (groups (ground arith))))
  ]

-- `integer` reads back the number below 2^35 that `put_int` wrote behind `front`, whatever prefix
-- above the low `bits` bits it was given, and stops behind it, whatever follows.
pub integer-put_int :
    (front rest : List ℕ) (n q bits : ℕ)
    → n < 2 ^ 35
    → bits ≤ 8
    → integer (front ++ (put_int n (q * 2 ^ bits) bits ++ rest)) (length front) bits
      ≡ ok (n, length front + length (put_int n (q * 2 ^ bits) bits))
unfolding integer
integer-put_int front rest n q bits hn hb =
    rw drop-append (from-put_int n q bits (length front) rest hn hb)
