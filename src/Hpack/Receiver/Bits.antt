-- ===== src/Hpack/Receiver/Bits.antt =====
-- The first bytes that the rewriter writes, and the numbers that fit behind them.
use mathlib.Core.Path.{subst}
use fingerprint_bridge.Base.{
  ℕ, zero, suc, ◌+◌, ◌-◌, ◌*◌, ◌/◌, ◌^◌, ◌≤◌, ◌<◌, ◌≡◌, refl, sym, List, [], ◌∷◌, Bool, true, false,
  some, get_elem?, length, ◌==◌, leb, arith, bit_and, if◌then◌else◌, Bool-cases, inl, inr,
}
use fingerprint_bridge.Base.Bits.{agree, agree_sound}
use fingerprint_bridge.Hpack.Integer.{put_int}
use fingerprint_bridge.Hpack.Integer.Prefix.{IsInt, put_int-IsInt, put_int_first}
use fingerprint_bridge.Hpack.Table.{Header, Table, get}
use fingerprint_bridge.Hpack.Table.Eviction.{total, IsValid}
use fingerprint_bridge.Hpack.Receiver.{first_byte, Opens, index_bits}

-- The bits of the first byte that `put_name` keeps.
abbrev pub mask : Bool → ℕ
mask incremental = if incremental then 0xc0 else 0xf0

top_two : (x : ℕ) → x < 256 → bit_and x 0xc0 ≡ x / 64 * 64
unfolding agree
top_two = agree_sound (λ x. bit_and x 0xc0) (λ x. x / 64 * 64) 256 refl

top_four : (x : ℕ) → x < 256 → bit_and x 0xf0 ≡ x / 16 * 16
unfolding agree
top_four = agree_sound (λ x. bit_and x 0xf0) (λ x. x / 16 * 16) 256 refl

abbrev Kept : Bool → ℕ → Type 0
Kept incremental c =
    (q : ℕ) × (bit_and c (mask incremental) ≡ q * 2 ^ index_bits incremental)
    × ((x : ℕ)
        → x < 2 ^ index_bits incremental
        → Opens incremental (q * 2 ^ index_bits incremental + x))

keeps_top : (incremental : Bool) (c : ℕ) → c < 256 → Opens incremental c → Kept incremental c
keeps_top true c small (seven, six) = (c / 64, top_two c small, λ x h. (ground arith, ground arith))
keeps_top false c small (seven, six, five) =
    (c / 16, top_four c small, λ x h. (ground arith, ground arith, ground arith))

get_elem?_inside : (hs : List Header) (i : ℕ) (h : Header) → get_elem? hs i ≡ some h → i < length hs
get_elem?_inside [] i h e = cc
get_elem?_inside (x ∷ hs) zero h e = omega arith
get_elem?_inside (x ∷ hs) (suc i) h e = omega (arith, get_elem?_inside hs i h e)

count_le : (hs : List Header) → 32 * length hs ≤ total hs
count_le [] = omega arith
count_le (h ∷ hs) = omega (arith, count_le hs)

-- A reference into the tables has 35 bits, where the dynamic table has a size that `rewrite` accepts.
pub get_small :
    (static_table : List Header) (t : Table) (n : ℕ) (h : Header)
    → IsValid t
    → t.limit ≤ 65536
    → get static_table t n ≡ some h
    → n < 2 ^ 35
unfolding get
get_small static_table t n h valid limit e = elim (Bool-cases (leb n 61)) [
  | inl early ↦ ground arith
  | inr late ↦ ground (
    arith,
    get_elem?_inside t.entries (n - 62) h,
    count_le t.entries,
    valid.counted,
    valid.within,
  )
]

pub get_some_suc :
    (static_table : List Header) (t : Table) (n : ℕ) (h : Header)
    → get static_table t n ≡ some h
    → (n == 0) ≡ false
unfolding get
get_some_suc static_table t zero h e = cc
get_some_suc static_table t (suc n) h e = ground arith

-- The number of a literal under the kept bits.
pub literal_front :
    (incremental : Bool) (c n : ℕ)
    → c < 256
    → Opens incremental c
    → n < 2 ^ 35
    → Opens incremental
        (first_byte (put_int n (bit_and c (mask incremental)) (index_bits incremental)))
      × IsInt
          (index_bits incremental)
          (put_int n (bit_and c (mask incremental)) (index_bits incremental))
          n
literal_front incremental c n small opens few =
    let (q, kept, open_again) = keeps_top incremental c small opens in
    let (x, rest, h, e) = put_int_first n q (index_bits incremental) (bits_le incremental) in
    rw kept (
      subst (λ (l : List ℕ). Opens incremental (first_byte l)) (sym e) (open_again x h),
      put_int-IsInt n q (index_bits incremental) few (bits_le incremental),
    )
  where
    bits_le : (b : Bool) → index_bits b ≤ 8
    bits_le true = omega arith
    bits_le false = omega arith
