-- ===== src/Hpack/Integer/Prefix.antt =====
-- A number is read from its own bytes, wherever they stand and whatever follows them.
use native.Mathlib.Nat.{zero-add, pow-le-pow_right, one-le-pow, mod-eq_of_lt}
use fingerprint_bridge.Base.{
  ℕ, ◌+◌, ◌-◌, ◌*◌, ◌%◌, ◌^◌, ◌≤◌, ◌<◌, ◌≡◌, sym, ap, ◌∙◌, List, [], ◌∷◌, ◌++◌, append-nil, length,
  drop-append, ok, arith, inl, inr, Bool-cases, bit_or, ltb, ltb→lt,
}
use fingerprint_bridge.Base.Bits.{bit_or-shifted}
use fingerprint_bridge.Hpack.Integer.{integer, integer_loop, integer_from, put_int, put_groups}
use fingerprint_bridge.Hpack.Integer.Shape.{loop_takes, from_takes}
use fingerprint_bridge.Hpack.Integer.RoundTrip.{integer-put_int}

-- The bytes are one number, behind a prefix above its low bits.
abbrev pub IsInt : ℕ → List ℕ → ℕ → Type 0
IsInt bits bytes n = integer bytes 0 bits ≡ ok (n, length bytes)

loop_moved :
    (part rest : List ℕ) (p p' n shift v q : ℕ)
    → integer_loop part p n shift ≡ ok (v, q)
    → integer_loop (part ++ rest) p' n shift ≡ ok (v, p' + (q - p))
unfolding integer_loop
loop_moved [] rest p p' n shift v q e = cc
loop_moved (c ∷ part) rest p p' n shift v q e = ground (
  arith,
  loop_moved part rest (p + 1) (p' + 1) (n + c % 128 * 2 ^ shift) (shift + 7) v q,
  loop_takes part (p + 1) (n + c % 128 * 2 ^ shift) (shift + 7) v q,
)

from_moved :
    (part rest : List ℕ) (p p' bits v q : ℕ)
    → integer_from part p bits ≡ ok (v, q)
    → integer_from (part ++ rest) p' bits ≡ ok (v, p' + (q - p))
unfolding integer_from
from_moved [] rest p p' bits v q e = cc
from_moved (c ∷ part) rest p p' bits v q e = ground (
  arith,
  loop_moved part rest (p + 1) (p' + 1) (c % 2 ^ bits) 0 v q,
  loop_takes part (p + 1) (c % 2 ^ bits) 0 v q,
)

pub IsInt-integer :
    (pre part rest : List ℕ) (bits n : ℕ)
    → IsInt bits part n
    → integer (pre ++ (part ++ rest)) (length pre) bits ≡ ok (n, length pre + length part)
unfolding integer
IsInt-integer pre part rest bits n h =
    let there : length pre + (length part - 0) ≡ length pre + length part = omega arith in
    rw (drop-append pre (part ++ rest))
      (from_moved part rest 0 (length pre) bits n (length part) h ∙ ap (λ (k : ℕ). ok (n, k)) there)

pub IsInt-some : (bits : ℕ) (part : List ℕ) (n : ℕ) → IsInt bits part n → 1 ≤ length part
unfolding integer
IsInt-some bits part n h = (from_takes part 0 bits n (length part) h).0

pub put_int-IsInt :
    (n q bits : ℕ) → n < 2 ^ 35 → bits ≤ 8 → IsInt bits (put_int n (q * 2 ^ bits) bits) n
put_int-IsInt n q bits hn hb =
    ap (λ (l : List ℕ). integer l 0 bits) (sym (append-nil (put_int n (q * 2 ^ bits) bits)))
    ∙ integer-put_int [] [] n q bits hn hb
    ∙ ap (λ (k : ℕ). ok (n, k)) (zero-add (length (put_int n (q * 2 ^ bits) bits)))

-- The first byte has the prefix above its low bits.
pub put_int_first :
    (n q bits : ℕ)
    → bits ≤ 8
    → (x : ℕ) × (rest : List ℕ) × (x < 2 ^ bits)
      × (put_int n (q * 2 ^ bits) bits ≡ (q * 2 ^ bits + x) ∷ rest)
unfolding put_int
put_int_first n q bits hb =
    let small : 2 ^ bits ≤ 256 = pow-le-pow_right {n = 2} (omega arith) {i = bits} {j = 8} hb in
    let some_bits : 1 ≤ 2 ^ bits = one-le-pow bits 2 (omega arith) in
    let first = λ (x : ℕ) (h : x < 2 ^ bits).
      ap (bit_or (q * 2 ^ bits)) (mod-eq_of_lt {n = x} {m = 256} (omega (arith, small)))
      ∙ bit_or-shifted q bits x h in
    elim (Bool-cases (ltb n (2 ^ bits - 1))) [
      | inl short ↦
          let h : n < 2 ^ bits = omega (arith, ltb→lt _ _ short) in
          rw short (n, [], h, ap (λ (c : ℕ). c ∷ []) (first n h))
      | inr long ↦
          let h : 2 ^ bits - 1 < 2 ^ bits = omega (arith, some_bits) in
          rw long (
            2 ^ bits - 1,
            put_groups (n - (2 ^ bits - 1)) (n - (2 ^ bits - 1)),
            h,
            ap (λ (c : ℕ). c ∷ put_groups (n - (2 ^ bits - 1)) (n - (2 ^ bits - 1))) (first _ h),
          )
    ]
