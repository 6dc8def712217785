-- ===== src/Fingerprint/Reader/Grease.antt =====
-- Which 16-bit values `grease` takes: the sixteen that RFC 8701 reserves, 0x0a0a, 0x1a1a up to 0xfafa.
use mathlib.Core.Path.{subst}
use mathlib.Core.Bool.{true≢false}
use fingerprint_bridge.Base.{
  ℕ, zero, suc, ◌+◌, ◌*◌, ◌/◌, ◌%◌, ◌<◌, ◌≡◌, ◌⊎◌, inl, inr, refl, sym, ap, ◌∙◌, Bool, true, false,
  not, ◌&&◌, ◌==◌, ==_iff, Bool-cases, arith,
}
use fingerprint_bridge.Fingerprint.Reader.{grease, normalize}

abbrev pub IsGrease : ℕ → Type 0
IsGrease n = (k : ℕ) × (k < 16) × (n ≡ 0x0a0a + k * 0x1010)

-- A reserved value stands as the first of them, any other for itself.
abbrev pub IsNormalized : ℕ → ℕ → Type 0
IsNormalized n out = (IsGrease n × (out ≡ 0x0a0a)) ⊎ ((¬ IsGrease n) × (out ≡ n))

-- Two tests with the same answer.
abbrev same : Bool → Bool → Bool
same true b = b
same false b = not b

same_sound : (a b : Bool) → same a b ≡ true → a ≡ b
same_sound true b h = sym h
same_sound false true h = cc h
same_sound false false h = refl

abbrev by_bytes : ℕ → ℕ → Bool
by_bytes high low = high == low && low % 16 == 10

-- `grease` on the words of one first byte, and on those of all first bytes below a bound.
unfoldable row : ℕ → ℕ → Bool
row high zero = true
row high (suc low) = same (grease (high * 256 + low)) (by_bytes high low) && row high low

unfoldable rows : ℕ → Bool
rows zero = true
rows (suc high) = row high 256 && rows high

rows_all : rows 256 ≡ true
unfolding rows row grease
rows_all = refl

both_true : (a b : Bool) → (a && b) ≡ true → (a ≡ true) × (b ≡ true)
both_true true b h = (refl, h)
both_true false b h = cc h

row_sound :
    (high n low : ℕ) → row high n ≡ true → low < n → grease (high * 256 + low) ≡ by_bytes high low
unfolding row
row_sound high zero low h below = absurd (omega arith)
row_sound high (suc n) low h below =
    let (here, there) = both_true _ (row high n) h in
    elim (Bool-cases (low == n)) [
      | inl last ↦
          subst (λ (x : ℕ). grease (high * 256 + x) ≡ by_bytes high x) (sym ((==_iff low n).0 last))
            (same_sound _ (by_bytes high n) here)
      | inr before ↦ row_sound high n low there (ground arith)
    ]

rows_sound : (n high : ℕ) → rows n ≡ true → high < n → row high 256 ≡ true
unfolding rows
rows_sound zero high h below = absurd (omega arith)
rows_sound (suc n) high h below = ground (arith, rows_sound n high (ground arith))

grease-by_bytes : (n : ℕ) → n < 0x10000 → grease n ≡ by_bytes (n / 256) (n % 256)
grease-by_bytes n h =
    let parts : n ≡ n / 256 * 256 + n % 256 = omega arith in
    ap grease parts
    ∙ row_sound (n / 256) 256 (n % 256) (rows_sound 256 (n / 256) rows_all (omega arith))
        (omega arith)

by_bytes-IsGrease : (n : ℕ) → n < 0x10000 → by_bytes (n / 256) (n % 256) ≡ true → IsGrease n
by_bytes-IsGrease n h e =
    let equal : n / 256 ≡ n % 256 = ground arith in
    let ten : n % 256 % 16 ≡ 10 = ground arith in (n % 256 / 16, omega arith, omega arith)

IsGrease-by_bytes : (n : ℕ) → IsGrease n → by_bytes (n / 256) (n % 256) ≡ true
IsGrease-by_bytes n (k, below, e) =
    let equal : n / 256 ≡ n % 256 = omega arith in
    let ten : n % 256 % 16 ≡ 10 = omega arith in ground arith

pub normalize-IsNormalized : (n : ℕ) → n < 0x10000 → IsNormalized n (normalize n)
unfolding normalize
normalize-IsNormalized n h = elim (Bool-cases (grease n)) [
  | inl e ↦ rw (e, normalize) (inl (by_bytes-IsGrease n h (sym (grease-by_bytes n h) ∙ e), refl))
  | inr e ↦
      rw (e, normalize)
        (inr (
          λ g. absurd (true≢false (sym (IsGrease-by_bytes n g) ∙ sym (grease-by_bytes n h) ∙ e)),
          refl,
        ))
]
