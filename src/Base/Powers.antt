-- ===== src/Base/Powers.antt =====
-- Remainders by powers of two: how they split at a bit position.
use Prim.Native.Nat.{ℕ, zero, suc, ◌+◌, ◌*◌, ◌/◌, ◌%◌, ◌^◌, ◌<◌}
use mathlib.Core.Path.{◌≡◌, sym, ap}
use native.Mathlib.Nat.{
  pow-suc, mod-lt, one-le-pow, div-add-mod, mul-add-mod_self_right, mod-eq_of_lt, add-zero,
}
use native.Mathlib.Omega.{arith}

pub two_pow_add : (a b : ℕ) → 2 ^ (a + b) ≡ 2 ^ a * 2 ^ b
two_pow_add a zero = rw add-zero (omega arith)
two_pow_add a (suc b) =
    let down : a + suc b ≡ suc (a + b) = omega arith in
    rw down
      (omega (arith, pow-suc 2 (a + b), two_pow_add a b, ap (λ (t : ℕ). 2 ^ a * t) (pow-suc 2 b)))

pub mod_of_split : (q m r : ℕ) → r < m → (q * m + r) % m ≡ r
mod_of_split q m r h = rw mul-add-mod_self_right (mod-eq_of_lt h)

-- A number at a split position, its upper part `q` and its lower part `r` known.
mod_of_parts : (x q m r : ℕ) → x ≡ q * m + r → r < m → x % m ≡ r
mod_of_parts x q m r e h = rw e (mod_of_split q m r h)

below_product : (r w c m : ℕ) → r < m → c < w → r * w + c < m * w
below_product r w c m h k = grind arith

-- Shifting `c` in from the right keeps the low bits.
pub mod-shift_in : (x a w c : ℕ) → c < 2 ^ w → (x * 2 ^ w + c) % 2 ^ (a + w) ≡ x % 2 ^ a * 2 ^ w + c
mod-shift_in x a w c h = rw (two_pow_add a w) (
    mod_of_parts _ (x / 2 ^ a) (2 ^ a * 2 ^ w) _
      (omega (arith, ap (λ (t : ℕ). t * 2 ^ w) (div-add-mod x (2 ^ a))))
      (below_product _ _ c (2 ^ a) (mod-lt x (one-le-pow a 2 (omega arith))) h))

-- The low bits are a byte over the bits below it.
pub mod-byte : (x b : ℕ) → x % 2 ^ (b + 8) ≡ x / 2 ^ b % 256 * 2 ^ b + x % 2 ^ b
mod-byte x b =
    let y : ℕ = x / 2 ^ b in
    rw two_pow_add (
      mod_of_parts x (y / 256) (2 ^ b * 256) _
        (omega (arith, div-add-mod x (2 ^ b), ap (λ (t : ℕ). t * 2 ^ b) (div-add-mod y 256)))
        (omega (
          arith,
          below_product (y % 256) (2 ^ b) (x % 2 ^ b) 256 (omega arith)
              (mod-lt x (one-le-pow b 2 (omega arith))),
        )))

-- Cutting to more bits first changes nothing.
pub mod-mod_pow : (x d b : ℕ) → x % 2 ^ (d + b) % 2 ^ b ≡ x % 2 ^ b
mod-mod_pow x d b =
    let m : ℕ = 2 ^ (d + b) in
    let r : ℕ = x % m in
    sym (
      mod_of_parts x (x / m * 2 ^ d + r / 2 ^ b) (2 ^ b) (r % 2 ^ b)
        (omega (
          arith,
          div-add-mod x m,
          div-add-mod r (2 ^ b),
          ap (λ (t : ℕ). x / m * t) (two_pow_add d b),
        ))
        (mod-lt r (one-le-pow b 2 (omega arith))))
