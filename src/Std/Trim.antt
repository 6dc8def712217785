-- ===== src/Std/Trim.antt =====
-- `trim` and its relatives. `str::trim` takes off Unicode white space, of which some characters have
-- two or three bytes.
pub mod Padded
pub mod Taken
use fingerprint_bridge.Base.{ℕ, List, [], ◌∷◌, Bool, ◌&&◌, ◌||◌, leb, ◌==◌, if◌then◌else◌, reverse}

abbrev pub is_space : ℕ → Bool
is_space c = leb 9 c && leb c 13 || c == 32

-- U+0085 and U+00A0.
abbrev pub two_byte_space : ℕ → ℕ → Bool
two_byte_space a b = a == 0xc2 && (b == 0x85 || b == 0xa0)

-- U+1680, U+2000 to U+200A, U+2028, U+2029, U+202F, U+205F and U+3000.
abbrev pub three_byte_space : ℕ → ℕ → ℕ → Bool
three_byte_space a b c =
    a == 0xe1 && b == 0x9a && c == 0x80
    || a == 0xe2 && b == 0x80 && (leb 0x80 c && leb c 0x8a || c == 0xa8 || c == 0xa9 || c == 0xaf)
    || a == 0xe2 && b == 0x81 && c == 0x9f
    || a == 0xe3 && b == 0x80 && c == 0x80

-- Takes white space off the front, by tests for characters of one, two and three bytes.
module _ (one : ℕ → Bool) (two : ℕ → ℕ → Bool) (three : ℕ → ℕ → ℕ → Bool) where
  unfoldable pub trim_by : List ℕ → List ℕ
  trim_by [] = []
  trim_by (a ∷ []) = if one a then [] else a ∷ []
  trim_by (a ∷ b ∷ []) =
      let rest = trim_by (b ∷ []) in if one a then rest else if two a b then [] else a ∷ b ∷ []
  trim_by (a ∷ b ∷ c ∷ s) =
      let after_one = trim_by (b ∷ c ∷ s) in
      let after_two = trim_by (c ∷ s) in
      let after_three = trim_by s in
      if one a
      then after_one
      else if two a b
      then after_two
      else if three a b c
      then after_three
      else a ∷ b ∷ c ∷ s

unfoldable pub trim_start : List ℕ → List ℕ
unfolding trim_by
trim_start = trim_by is_space two_byte_space three_byte_space

unfoldable pub trim_end : List ℕ → List ℕ
unfolding trim_by
trim_end s =
    reverse
      (trim_by is_space (λ b a. two_byte_space a b) (λ c b a. three_byte_space a b c) (reverse s))

unfoldable pub trim : List ℕ → List ℕ
unfolding trim_start trim_end
trim s = trim_end (trim_start s)

-- `trim_start_matches` and `trim_end_matches` with a class of bytes.
unfoldable pub trim_start_matches : (ℕ → Bool) → List ℕ → List ℕ
trim_start_matches test [] = []
trim_start_matches test (c ∷ s) =
    let rest = trim_start_matches test s in if test c then rest else c ∷ s

unfoldable pub trim_end_matches : (ℕ → Bool) → List ℕ → List ℕ
unfolding trim_start_matches
trim_end_matches test s = reverse (trim_start_matches test (reverse s))
