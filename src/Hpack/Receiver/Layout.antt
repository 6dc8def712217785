-- ===== src/Hpack/Receiver/Layout.antt =====
-- Where `layout` finds the parts of a representation that stands in a block.
use fingerprint_bridge.Base.{
  ℕ, ◌+◌, ◌-◌, ◌≤◌, ◌≡◌, refl, sym, ap, ◌∙◌, List, [], ◌∷◌, ◌++◌, append_assoc, length,
  length-append, drop, drop-append, take-append, Bool, true, false, ◌==◌, ok, arith,
}
use fingerprint_bridge.Base.Bits.{bit_set}
use fingerprint_bridge.Hpack.Integer.{skip_string}
use fingerprint_bridge.Hpack.Integer.Prefix.{IsInt, IsInt-integer, IsInt-some}
use fingerprint_bridge.Hpack.Receiver.{first_byte, IsString, Opens, index_bits}
use fingerprint_bridge.Hpack.Receiver.Strings.{IsString-skip_string}
use fingerprint_bridge.Hpack.Rewriter.{Layout, layout, skip_if, slice, byte_at}

pub slice_middle :
    (pre mid post : List ℕ)
    → slice (pre ++ (mid ++ post)) (length pre) (length pre + length mid) ≡ mid
slice_middle pre mid post =
    let n : (length pre + length mid) - length pre ≡ length mid = omega arith in
    rw (n, drop-append pre (mid ++ post)) (take-append mid post)

pub first_append :
    (bytes rest : List ℕ) → 1 ≤ length bytes → first_byte (bytes ++ rest) ≡ first_byte bytes
first_append [] rest h = absurd (omega arith)
first_append (c ∷ bytes) rest h = refl

pub byte_at_lem : (b : List ℕ) (i : ℕ) → byte_at b i ≡ first_byte (drop i b)
byte_at_lem b i = go (drop i b)
  where
    go : (l : List ℕ) → (elim l [ [] ↦ 0 | c ∷ rest ↦ c ]) ≡ first_byte l
    go [] = refl
    go (c ∷ rest) = refl

pub byte_at_front :
    (pre bytes rest : List ℕ)
    → 1 ≤ length bytes
    → byte_at (pre ++ (bytes ++ rest)) (length pre) ≡ first_byte bytes
byte_at_front pre bytes rest h =
    byte_at_lem (pre ++ (bytes ++ rest)) (length pre)
    ∙ ap first_byte (drop-append pre (bytes ++ rest))
    ∙ first_append bytes rest h

abbrev pub indexed_layout : (n end : ℕ) → Layout
indexed_layout n end = record {
  indexed = true;
  incremental = false;
  bits = 7;
  index = n;
  name_start = end;
  value_start = end;
  end = end;
}

abbrev pub literal_layout : Bool → (n name_start value_start end : ℕ) → Layout
literal_layout incremental n name_start value_start end = record {
  indexed = false;
  incremental = incremental;
  bits = index_bits incremental;
  index = n;
  name_start = name_start;
  value_start = value_start;
  end = end;
}

pub layout_indexed :
    (pre bytes rest : List ℕ) (n : ℕ)
    → bit_set (first_byte bytes) 7 ≡ true
    → IsInt 7 bytes n
    → layout (pre ++ (bytes ++ rest)) (length pre)
      ≡ ok (indexed_layout n (length pre + length bytes))
unfolding layout skip_if
layout_indexed pre bytes rest n top h =
    let first : byte_at (pre ++ (bytes ++ rest)) (length pre) ≡ first_byte bytes =
      byte_at_front pre bytes rest (IsInt-some 7 bytes n h) in
    rw (first, top, IsInt-integer pre bytes rest 7 n h) refl

pub layout_literal :
    (pre front tail : List ℕ) (incremental : Bool) (n value_start end : ℕ)
    → Opens incremental (first_byte front)
    → IsInt (index_bits incremental) front n
    → skip_if (n == 0) (pre ++ (front ++ tail)) (length pre + length front) ≡ ok value_start
    → skip_string (pre ++ (front ++ tail)) value_start ≡ ok end
    → layout (pre ++ (front ++ tail)) (length pre)
      ≡ ok (literal_layout incremental n (length pre + length front) value_start end)
unfolding layout skip_if
layout_literal pre front tail true n value_start end (seven, six) h named valued =
    let first : byte_at (pre ++ (front ++ tail)) (length pre) ≡ first_byte front =
      byte_at_front pre front tail (IsInt-some 6 front n h) in
    rw (first, seven, six, IsInt-integer pre front tail 6 n h, named, valued) refl
layout_literal pre front tail false n value_start end (seven, six, five) h named valued =
    let first : byte_at (pre ++ (front ++ tail)) (length pre) ≡ first_byte front =
      byte_at_front pre front tail (IsInt-some 4 front n h) in
    rw (first, seven, six, IsInt-integer pre front tail 4 n h, named, valued) refl

-- A string behind the first part of a representation.
string_behind :
    (pre front part rest v : List ℕ)
    → IsString part v
    → skip_string (pre ++ (front ++ (part ++ rest))) (length pre + length front)
      ≡ ok (length pre + length (front ++ part))
string_behind pre front part rest v h =
    let place : pre ++ (front ++ (part ++ rest)) ≡ (pre ++ front) ++ (part ++ rest) =
      sym (append_assoc pre front (part ++ rest)) in
    let from : length pre + length front ≡ length (pre ++ front) =
      omega (arith, length-append pre front) in
    let to : length (pre ++ front) + length part ≡ length pre + length (front ++ part) =
      omega (arith, length-append pre front, length-append front part) in
    rw (place, from) (IsString-skip_string (pre ++ front) part rest v h ∙ ap ok to)

pub layout_named :
    (pre front part rest v : List ℕ) (incremental : Bool) (n : ℕ)
    → Opens incremental (first_byte front)
    → IsInt (index_bits incremental) front n
    → (n == 0) ≡ false
    → IsString part v
    → layout (pre ++ ((front ++ part) ++ rest)) (length pre)
      ≡ ok (
          literal_layout incremental n
            (length pre + length front)
            (length pre + length front)
            (length pre + length (front ++ part)))
unfolding skip_if
layout_named pre front part rest v incremental n opens number some_name h =
    rw (append_assoc front part rest) (
      layout_literal pre front (part ++ rest) incremental n (length pre + length front)
        (length pre + length (front ++ part)) opens number (rw some_name refl)
        (string_behind pre front part rest v h))

pub layout_fresh :
    (pre front name_part part rest name v : List ℕ) (incremental : Bool)
    → Opens incremental (first_byte front)
    → IsInt (index_bits incremental) front 0
    → IsString name_part name
    → IsString part v
    → layout (pre ++ ((front ++ (name_part ++ part)) ++ rest)) (length pre)
      ≡ ok (
          literal_layout incremental 0
            (length pre + length front)
            (length pre + length (front ++ name_part))
            (length pre + length (front ++ (name_part ++ part))))
unfolding skip_if
layout_fresh pre front name_part part rest name v incremental opens number named h =
    let place : (front ++ (name_part ++ part)) ++ rest ≡ front ++ (name_part ++ (part ++ rest)) =
      append_assoc front (name_part ++ part) rest
      ∙ ap (λ (l : List ℕ). front ++ l) (append_assoc name_part part rest) in
    let again : front ++ (name_part ++ (part ++ rest)) ≡ (front ++ name_part) ++ (part ++ rest) =
      sym (append_assoc front name_part (part ++ rest)) in
    let all : (front ++ name_part) ++ part ≡ front ++ (name_part ++ part) =
      append_assoc front name_part part in
    let valued =
      ap (λ (b : List ℕ). skip_string (pre ++ b) (length pre + length (front ++ name_part))) again
      ∙ string_behind pre (front ++ name_part) part rest v h
      ∙ ap (λ (b : List ℕ). ok (length pre + length b)) all in
    rw place (
      layout_literal pre front (name_part ++ (part ++ rest)) incremental 0
        (length pre + length (front ++ name_part))
        (length pre + length (front ++ (name_part ++ part))) opens number
        (string_behind pre front name_part (part ++ rest) name named) valued)

pub slice_second :
    (pre front part post : List ℕ)
    → slice
        (pre ++ (front ++ (part ++ post)))
        (length pre + length front)
        (length pre + length (front ++ part))
      ≡ part
slice_second pre front part post =
    let place : pre ++ (front ++ (part ++ post)) ≡ (pre ++ front) ++ (part ++ post) =
      sym (append_assoc pre front (part ++ post)) in
    let from : length pre + length front ≡ length (pre ++ front) =
      omega (arith, length-append pre front) in
    let to : length pre + length (front ++ part) ≡ length (pre ++ front) + length part =
      omega (arith, length-append pre front, length-append front part) in
    rw (place, from, to) (slice_middle (pre ++ front) part post)
