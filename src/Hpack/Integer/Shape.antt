-- ===== src/Hpack/Integer/Shape.antt =====
-- What `integer` accepts, on any bytes.
use native.Mathlib.Nat.{pow-le-pow_right}
use native.Mathlib.Numerals.{towards_suc}
use text.Mathlib.TextEquality.{eq_iff}
use fingerprint_bridge.Base.{
  ℕ, ◌+◌, ◌*◌, ◌%◌, ◌^◌, ◌≤◌, ◌<◌, ◌≡◌, ◌≢◌, List, [], ◌∷◌, length, drop, length-drop, >>=-eq-ok,
  ok, err, arith,
}
use fingerprint_bridge.Base.Bits.{low_bits-lt}
use fingerprint_bridge.Hpack.Integer.{integer, integer_loop, integer_from, skip_string}

pub two_pow_add_seven : (s : ℕ) → 2 ^ (s + 7) ≡ 128 * 2 ^ s
two_pow_add_seven s = simp towards_suc (omega arith)

-- The five groups that the shift test lets through end below 2^35.
pub group_fits : (s : ℕ) → s ≤ 28 → 128 * 2 ^ s ≤ 2 ^ 35
group_fits s h =
    rw two_pow_add_seven at
      (pow-le-pow_right {n = 2} (omega arith) {i = s + 7} {j = 35} (omega arith))

group_bound : (c s : ℕ) → c % 128 * s ≤ 127 * s
group_bound c s = grind arith

pub loop_takes :
    (bytes : List ℕ) (p n shift v q : ℕ)
    → integer_loop bytes p n shift ≡ ok (v, q)
    → (p < q) × (q ≤ p + length bytes) × (7 * q + shift ≤ 7 * p + 35)
unfolding integer_loop
loop_takes [] p n shift v q e = cc
loop_takes (c ∷ rest) p n shift v q e =
    ground (arith, loop_takes rest (p + 1) (n + c % 128 * 2 ^ shift) (shift + 7) v q)

loop_bound :
    (bytes : List ℕ) (p n shift v q : ℕ)
    → integer_loop bytes p n shift ≡ ok (v, q)
    → v + 2 ^ shift ≤ n + 2 ^ 35
unfolding integer_loop
loop_bound [] p n shift v q e = cc
loop_bound (c ∷ rest) p n shift v q e = ground (
  arith,
  two_pow_add_seven shift,
  group_bound c (2 ^ shift),
  group_fits shift,
  loop_bound rest (p + 1) (n + c % 128 * 2 ^ shift) (shift + 7) v q,
)

pub from_takes :
    (bytes : List ℕ) (p bits v q : ℕ)
    → integer_from bytes p bits ≡ ok (v, q)
    → (p < q) × (q ≤ p + length bytes) × (q ≤ p + 6)
unfolding integer_from
from_takes [] p bits v q e = cc
from_takes (c ∷ rest) p bits v q e = ground (arith, loop_takes rest (p + 1) (c % 2 ^ bits) 0 v q)

from_bound :
    (bytes : List ℕ) (p bits v q : ℕ)
    → integer_from bytes p bits ≡ ok (v, q)
    → v < 2 ^ bits + 2 ^ 35
unfolding integer_from
from_bound [] p bits v q e = cc
from_bound (c ∷ rest) p bits v q e =
    ground (arith, low_bits-lt c bits, loop_bound rest (p + 1) (c % 2 ^ bits) 0 v q)

-- Whatever the bytes are, a number that `integer` accepts takes one to six bytes of the block, and
-- it stays below 2^bits + 2^35.
pub integer_takes :
    (b : List ℕ) (p bits v q : ℕ)
    → p ≤ length b
    → integer b p bits ≡ ok (v, q)
    → (p < q) × (q ≤ length b) × (q ≤ p + 6) × (v < 2 ^ bits + 2 ^ 35)
unfolding integer
integer_takes b p bits v q h e =
    let (lo, hi, six) = from_takes (drop p b) p bits v q e in
    (lo, omega (arith, hi, length-drop p b), six, from_bound (drop p b) p bits v q e)

loop-ne-overflow :
    (bytes : List ℕ) (p n shift : ℕ)
    → n ≤ 255 + 2 ^ shift
    → integer_loop bytes p n shift ≢ err "HPACK overflow"
unfolding integer_loop
loop-ne-overflow [] p n shift h = ground (arith, eq_iff "invalid HPACK integer" "HPACK overflow")
loop-ne-overflow (c ∷ rest) p n shift h = ground (
  arith,
  eq_iff "invalid HPACK integer" "HPACK overflow",
  two_pow_add_seven shift,
  group_bound c (2 ^ shift),
  group_fits shift,
  loop-ne-overflow rest (p + 1) (n + c % 128 * 2 ^ shift) (shift + 7),
)

from-ne-overflow :
    (bytes : List ℕ) (p bits : ℕ) → bits ≤ 8 → integer_from bytes p bits ≢ err "HPACK overflow"
unfolding integer_from
from-ne-overflow [] p bits h = ground (arith, eq_iff "truncated HPACK integer" "HPACK overflow")
from-ne-overflow (c ∷ rest) p bits h = ground (
  arith,
  low_bits-lt c bits,
  pow-le-pow_right {n = 2} (omega arith) {i = bits} {j = 8} h,
  loop-ne-overflow rest (p + 1) (c % 2 ^ bits) 0,
)

-- The shift test stops a number before its sum could leave 64 bits: with a prefix of at most eight
-- bits the `checked_add` of `integer` never fails.
pub integer-ne-overflow :
    (b : List ℕ) (p bits : ℕ) → bits ≤ 8 → integer b p bits ≢ err "HPACK overflow"
unfolding integer
integer-ne-overflow b p bits h = from-ne-overflow (drop p b) p bits h

pub skip_string_takes :
    (b : List ℕ) (p q : ℕ) → p ≤ length b → skip_string b p ≡ ok q → (p < q) × (q ≤ length b)
unfolding skip_string
skip_string_takes b p q h e =
    let ((n, r), read, rest) = >>=-eq-ok (integer b p 7) _ e in
    ground (arith, integer_takes b p 7 n r h read, rest)
