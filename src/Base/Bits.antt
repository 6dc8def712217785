-- ===== src/Base/Bits.antt =====
-- Masks, shifts and `|` on native numbers. `x & (2^k - 1)` is `low_bits x k`, `x >> k` is `shr x k`,
-- and `x & (1 << k) != 0` is `bit_set x k`.
use Prim.Native.Nat.{
  ℕ, zero, suc, ◌+◌, ◌*◌, ◌/◌, ◌%◌, ◌^◌, ◌≤◌, ◌<◌, max, bit_or, digits, bit_or-bitwise,
}
use mathlib.Core.Path.{◌≡◌, refl, ap}
use mathlib.Core.Bool.{Bool, true, ◌&&◌}
use native.Mathlib.Nat.{pow-suc, mod-lt, one-le-pow}
use native.Mathlib.Omega.{arith}
use fingerprint_bridge.Base.Tests.{◌==◌}

abbrev pub low_bits : ℕ → ℕ → ℕ
low_bits x k = x % 2 ^ k

abbrev pub shr : ℕ → ℕ → ℕ
shr x k = x / 2 ^ k

abbrev pub bit_set : ℕ → ℕ → Bool
bit_set x k = x / 2 ^ k % 2 == 1

-- The digit recursion behind `bit_or`, on fuel `n`, where `a` is `q` shifted over the bits of `r`.
or_digits : (n k q a r : ℕ) → a ≤ n → a ≡ q * 2 ^ k → r < 2 ^ k → digits (λ b. b) max n a r ≡ a + r
or_digits zero k q zero r h e b = omega arith
or_digits zero k q (suc a) r h e b = absurd (omega arith)
or_digits (suc n) k q zero r h e b = omega arith
or_digits (suc n) zero q (suc a) r h e b =
    omega (
      arith,
      or_digits n 0 (suc a / 2) (suc a / 2) (r / 2) (omega arith) (omega arith) (omega arith),
    )
or_digits (suc n) (suc k) q (suc a) r h e b = omega (
  arith,
  pow-suc 2 k,
  shifted,
  or_digits n k q (suc a / 2) (r / 2) (omega arith) (omega (arith, shifted))
      (omega (arith, pow-suc 2 k)),
)
  where
    shifted : suc a ≡ 2 * (q * 2 ^ k)
    shifted = omega (arith, e, ap (λ (t : ℕ). q * t) (pow-suc 2 k))

-- `(q << k) | r` is a sum where `r` has at most `k` bits.
pub bit_or-shifted : (q k r : ℕ) → r < 2 ^ k → bit_or (q * 2 ^ k) r ≡ q * 2 ^ k + r
bit_or-shifted q k r h =
    simp bit_or-bitwise (or_digits (q * 2 ^ k) k q (q * 2 ^ k) r (omega arith) refl h)

pub low_bits-lt : (x k : ℕ) → low_bits x k < 2 ^ k
low_bits-lt x k = mod-lt x (one-le-pow k 2 (omega arith))

-- Two functions that agree at every number below `n`, by evaluation.
unfoldable pub agree : (f g : ℕ → ℕ) → ℕ → Bool
agree f g zero = true
agree f g (suc n) = (f n == g n) && agree f g n

pub agree_sound : (f g : ℕ → ℕ) (n : ℕ) → agree f g n ≡ true → (x : ℕ) → x < n → f x ≡ g x
unfolding agree
agree_sound f g zero e x h = absurd (omega arith)
agree_sound f g (suc n) e x h = ground (arith, agree_sound f g n (ground arith) x)

-- `x | 128` for a group of seven bits.
pub bit_or-top : (x : ℕ) → x < 128 → bit_or x 128 ≡ x + 128
unfolding agree
bit_or-top = agree_sound (λ x. bit_or x 128) (λ x. x + 128) 128 refl

-- The low bits of `(q << k) | r` are `r`.
pub low_bits-bit_or : (q k r : ℕ) → r < 2 ^ k → low_bits (bit_or (q * 2 ^ k) r) k ≡ r
low_bits-bit_or q k r h = rw (bit_or-shifted q k r h) (grind arith)

or_digits_ge :
    (n a r : ℕ) → a ≤ n → (a ≤ digits (λ b. b) max n a r) × (r ≤ digits (λ b. b) max n a r)
or_digits_ge zero zero r h = (omega arith, omega arith)
or_digits_ge zero (suc a) r h = absurd (omega arith)
or_digits_ge (suc n) zero r h = (omega arith, omega arith)
or_digits_ge (suc n) (suc a) r h =
    let (left, right) = or_digits_ge n (suc a / 2) (r / 2) (omega arith) in
    (omega (arith, left, right), omega (arith, left, right))

-- Each side of `|` is at most the result.
pub bit_or_ge : (a r : ℕ) → (a ≤ bit_or a r) × (r ≤ bit_or a r)
bit_or_ge a r = simp bit_or-bitwise (or_digits_ge a a r (omega arith))
