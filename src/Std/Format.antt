-- ===== src/Std/Format.antt =====
-- Numbers as text: `{}`, `{:02}` and `{:04x}` of `format!`.
pub mod Decimal
use fingerprint_bridge.Base.{
  ℕ, zero, suc, ◌+◌, ◌-◌, ◌/◌, ◌%◌, List, [], ◌∷◌, ◌++◌, ltb, if◌then◌else◌, length, replicate,
}

abbrev pub digit : ℕ → ℕ
digit n = if ltb n 10 then 48 + n else 87 + n

-- The digits of a number in a base, on fuel: a number has at most as many as its value and one.
unfoldable pub digits : ℕ → ℕ → ℕ → List ℕ
digits base zero n = digit n ∷ []
digits base (suc fuel) n =
    let more = digits base fuel (n / base) ++ digit (n % base) ∷ [] in
    if ltb n base then digit n ∷ [] else more

unfoldable pub to_decimal : ℕ → List ℕ
unfolding digits
to_decimal n = digits 10 n n

-- Zeros in front, up to a width.
unfoldable pub zero_padded : ℕ → List ℕ → List ℕ
zero_padded width s = replicate (width - length s) 48 ++ s

unfoldable pub to_decimal_02 : ℕ → List ℕ
unfolding zero_padded to_decimal
to_decimal_02 n = zero_padded 2 (to_decimal n)

unfoldable pub to_hex_04 : ℕ → List ℕ
unfolding zero_padded digits
to_hex_04 n = zero_padded 4 (digits 16 n n)
