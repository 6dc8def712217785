-- ===== src/Std/Utf8.antt =====
-- `str::from_utf8`: the well-formed byte sequences of the Unicode standard, table 3-7.
use fingerprint_bridge.Base.{
  ℕ, List, [], ◌∷◌, Bool, true, false, ◌&&◌, ◌||◌, leb, ltb, ◌==◌, if◌then◌else◌, Result, ok, err,
}

abbrev tail_byte : ℕ → Bool
tail_byte c = leb 0x80 c && leb c 0xbf

-- The second byte of a character of three bytes, and of four.
abbrev second_of_three : ℕ → ℕ → Bool
second_of_three a b =
    a == 0xe0 && leb 0xa0 b && leb b 0xbf
    || leb 0xe1 a && leb a 0xec && tail_byte b
    || a == 0xed && leb 0x80 b && leb b 0x9f
    || leb 0xee a && leb a 0xef && tail_byte b

abbrev second_of_four : ℕ → ℕ → Bool
second_of_four a b =
    a == 0xf0 && leb 0x90 b && leb b 0xbf
    || leb 0xf1 a && leb a 0xf3 && tail_byte b
    || a == 0xf4 && leb 0x80 b && leb b 0x8f

unfoldable pub is_utf8 : List ℕ → Bool
is_utf8 [] = true
is_utf8 (a ∷ []) = ltb a 0x80
is_utf8 (a ∷ b ∷ []) =
    let rest = is_utf8 (b ∷ []) in
    if ltb a 0x80 then rest else leb 0xc2 a && leb a 0xdf && tail_byte b
is_utf8 (a ∷ b ∷ c ∷ []) =
    let after_one = is_utf8 (b ∷ c ∷ []) in
    let after_two = is_utf8 (c ∷ []) in
    if ltb a 0x80
    then after_one
    else if leb 0xc2 a && leb a 0xdf && tail_byte b
    then after_two
    else second_of_three a b && tail_byte c
is_utf8 (a ∷ b ∷ c ∷ d ∷ s) =
    let after_one = is_utf8 (b ∷ c ∷ d ∷ s) in
    let after_two = is_utf8 (c ∷ d ∷ s) in
    let after_three = is_utf8 (d ∷ s) in
    let after_four = is_utf8 s in
    if ltb a 0x80
    then after_one
    else if leb 0xc2 a && leb a 0xdf && tail_byte b
    then after_two
    else if second_of_three a b && tail_byte c
    then after_three
    else if second_of_four a b && tail_byte c && tail_byte d
    then after_four
    else false

-- `std::str::from_utf8(value)?`
unfoldable pub from_utf8 : List ℕ → Result (List ℕ)
unfolding is_utf8
from_utf8 s = if is_utf8 s then ok s else err "invalid utf-8"
