-- ===== src/Std/Format/Decimal.antt =====
-- A number is read back from its decimal digits.
use fingerprint_bridge.Base.{
  ℕ, zero, suc, ◌+◌, ◌-◌, ◌*◌, ◌/◌, ◌%◌, ◌≤◌, ◌<◌, ◌≡◌, refl, ◌∙◌, List, [], ◌∷◌, ◌++◌, true, ltb,
  All, All-append, length, length-append, Bool-cases, inl, inr, arith,
}
use fingerprint_bridge.Std.Ascii.{is_digit}
use fingerprint_bridge.Std.Format.{digit, digits, to_decimal}
use fingerprint_bridge.H1.Framing.{decimal}

decimal-append : (n : ℕ) (xs ys : List ℕ) → decimal n (xs ++ ys) ≡ decimal (decimal n xs) ys
unfolding decimal
decimal-append n [] ys = refl
decimal-append n (x ∷ xs) ys = decimal-append (n * 10 + (x - 48)) xs ys

decimal-digit : (k n : ℕ) → n < 10 → decimal k (digit n ∷ []) ≡ k * 10 + n
unfolding decimal
decimal-digit k n h = ground arith

decimal_small : (n : ℕ) → decimal 0 ((48 + n) ∷ []) ≡ n
unfolding decimal
decimal_small n = omega arith

decimal-digits : (fuel n : ℕ) → n < suc fuel → decimal 0 (digits 10 fuel n) ≡ n
unfolding digits
decimal-digits zero n h = decimal-digit 0 n (omega arith) ∙ omega arith
decimal-digits (suc fuel) n h = elim (Bool-cases (ltb n 10)) [
  | inl small ↦ rw small (decimal_small n)
  | inr large ↦
      let ten : 10 ≤ n = ground arith in
      rw large (
        decimal-append 0 (digits 10 fuel (n / 10)) (digit (n % 10) ∷ [])
        ∙ decimal-digit (decimal 0 (digits 10 fuel (n / 10))) (n % 10) (omega arith)
        ∙ omega (arith, decimal-digits fuel (n / 10)))
]

pub decimal-to_decimal : (n : ℕ) → decimal 0 (to_decimal n) ≡ n
unfolding to_decimal
decimal-to_decimal n = decimal-digits n n (omega arith)

digits_are_digits : (fuel n : ℕ) → n < suc fuel → All (λ c. is_digit c ≡ true) (digits 10 fuel n)
unfolding digits
digits_are_digits zero n h = (ground arith, tt)
digits_are_digits (suc fuel) n h = elim (Bool-cases (ltb n 10)) [
  | inl small ↦ rw small (ground arith, tt)
  | inr large ↦
      let ten : 10 ≤ n = ground arith in
      rw large (
        All-append _ (digits 10 fuel (n / 10)) (digit (n % 10) ∷ [])
          (digits_are_digits fuel (n / 10) (omega arith)) (ground arith, tt))
]

pub to_decimal_digits : (n : ℕ) → All (λ c. is_digit c ≡ true) (to_decimal n)
unfolding to_decimal
to_decimal_digits n = digits_are_digits n n (omega arith)

digits-ne-nil : (fuel n : ℕ) → 1 ≤ length (digits 10 fuel n)
unfolding digits
digits-ne-nil zero n = omega arith
digits-ne-nil (suc fuel) n =
    ground (arith, length-append (digits 10 fuel (n / 10)) (digit (n % 10) ∷ []))

pub length-to_decimal_pos : (n : ℕ) → 1 ≤ length (to_decimal n)
unfolding to_decimal
length-to_decimal_pos n = digits-ne-nil n n
