-- ===== src/Hpack/Receiver/Fields.antt =====
-- `put_field` and `layout` on a field as a receiver reads it.
use mathlib.Core.Path.{subst}
use fingerprint_bridge.Base.{
  ℕ, ◌+◌, ◌≤◌, ◌<◌, ◌≡◌, sym, ap, ap₂, ◌∙◌, List, ◌++◌, append_assoc, Bool, true, false, length,
  length-append, ◌==◌, arith, ok, ok-injective,
}
use fingerprint_bridge.Base.Bits.{bit_set}
use fingerprint_bridge.Hpack.Integer.Prefix.{IsInt, IsInt-some}
use fingerprint_bridge.Hpack.Table.{Header, Table}
use fingerprint_bridge.Hpack.Table.Eviction.{IsValid}
use fingerprint_bridge.Hpack.Rewriter.{
  HpackCrate, Layout, layout, put_field, put_value, slice, grow,
}
use fingerprint_bridge.Hpack.Receiver.{
  first_byte, IsString, Opens, index_bits, Grown, Field, indexed, named, fresh,
}
use fingerprint_bridge.Hpack.Receiver.Layout.{
  slice_middle, slice_second, byte_at_front, first_append, layout_indexed, layout_named,
  layout_fresh, literal_layout, indexed_layout,
}
use fingerprint_bridge.Hpack.Receiver.Bits.{get_some_suc}
use fingerprint_bridge.Hpack.Receiver.Written.{
  put_indexed-Field, put_name-Field, put_name_fresh, put_value-IsString,
}

pub Field_some :
    (static_table : List Header) (t t' : Table) (bytes : List ℕ) (h : Header)
    → Field static_table t bytes h t'
    → 1 ≤ length bytes
Field_some static_table t t' bytes h (indexed n top number found same) = IsInt-some 7 bytes n number
Field_some static_table t t' bytes h
      (named incremental front part n key e opens number found same valued grown) =
    omega (
      arith,
      ap length e,
      length-append front part,
      IsInt-some (index_bits incremental) front n number,
    )
Field_some static_table t t' bytes h
      (fresh incremental front name_part part e opens number named_so valued grown) =
    omega (
      arith,
      ap length e,
      length-append front (name_part ++ part),
      IsInt-some (index_bits incremental) front 0 number,
    )

-- Where a field of the receiver begins, `layout` ends with it.
pub Field-layout :
    (static_table : List Header) (t t' : Table) (pre bytes rest : List ℕ) (h : Header) (l : Layout)
    → Field static_table t bytes h t'
    → layout (pre ++ (bytes ++ rest)) (length pre) ≡ ok l
    → l.end ≡ length pre + length bytes
Field-layout static_table t t' pre bytes rest h l (indexed n top number found same) e =
    ap Layout.end (ok-injective (sym e ∙ layout_indexed pre bytes rest n top number))
Field-layout static_table t t' pre bytes rest h l
      (named incremental front part n key place opens number found same valued grown) e =
    ap Layout.end (
      ok-injective (
        sym e
        ∙ ap (λ (b : List ℕ). layout (pre ++ (b ++ rest)) (length pre)) place
        ∙ layout_named pre front part rest h.1 incremental n opens number
            (get_some_suc static_table t n key found) valued))
    ∙ ap (λ (b : List ℕ). length pre + length b) (sym place)
Field-layout static_table t t' pre bytes rest h l
      (fresh incremental front name_part part place opens number named_so valued grown) e =
    ap Layout.end (
      ok-injective (
        sym e
        ∙ ap (λ (b : List ℕ). layout (pre ++ (b ++ rest)) (length pre)) place
        ∙ layout_fresh pre front name_part part rest h.0 h.1 incremental opens number named_so
            valued))
    ∙ ap (λ (b : List ℕ). length pre + length b) (sym place)

module _ (crate : HpackCrate) (sixty_one : length crate.static_table ≡ 61) (t : Table)
    (valid : IsValid t) (limit : t.limit ≤ 65536) (name v mapped : List ℕ)
    (name_fits : length name ≤ 1048576) (value_fits : length mapped ≤ 1048576)
    (pre rest : List ℕ) where
  -- What `put_field` writes for the bytes under the layout, with the table that `grow` leaves.
  abbrev Answer : List ℕ → Layout → Type 0
  Answer bytes l =
      (t' : Table)
      → grow l t (name, mapped) ≡ ok t'
      → Field crate.static_table t
          (put_field crate (pre ++ (bytes ++ rest)) (length pre) l t (name, v) mapped)
          (name, mapped) t'

  indexed_answer :
      (bytes : List ℕ) (n : ℕ)
      → bit_set (first_byte bytes) 7 ≡ true
      → IsInt 7 bytes n
      → (n == 0) ≡ false
      → Answer bytes (indexed_layout n (length pre + length bytes))
  unfolding put_field grow
  indexed_answer bytes n top number some_index t' same = rw (slice_middle pre bytes rest) (
      subst (Field crate.static_table t _ (name, mapped)) (ok-injective same) (
        put_indexed-Field crate sixty_one t valid limit name mapped name_fits value_fits n bytes top
          number some_index))

  grown_lem :
      (incremental : Bool) (n a b c : ℕ) (t' : Table)
      → grow (literal_layout incremental n a b c) t (name, mapped) ≡ ok t'
      → Grown incremental t (name, mapped) t'
  unfolding grow
  grown_lem true n a b c t' e = e
  grown_lem false n a b c t' e = ok-injective e

  named_answer :
      (incremental : Bool) (front part : List ℕ) (n : ℕ)
      → first_byte front < 256
      → 1 ≤ length front
      → Opens incremental (first_byte front)
      → IsInt (index_bits incremental) front n
      → (n == 0) ≡ false
      → IsString part v
      → Answer (front ++ part) (
          literal_layout incremental n
            (length pre + length front)
            (length pre + length front)
            (length pre + length (front ++ part)))
  unfolding put_field
  named_answer incremental front part n small some_front opens number some_name valued t' e =
      rw
        (
          append_assoc front part rest,
          byte_at_front pre front (part ++ rest) some_front,
          slice_middle pre front (part ++ rest),
          slice_second pre front part rest,
        )
        (put_name-Field crate sixty_one t valid limit name mapped name_fits value_fits incremental
          front (put_value crate v mapped part) t' small opens
          (put_value-IsString crate sixty_one t valid limit name mapped name_fits value_fits v part
            valued)
          (grown_lem incremental n _ _ _ t' e) n _ number some_name)

  fresh_answer :
      (incremental : Bool) (front name_part part : List ℕ)
      → first_byte front < 256
      → 1 ≤ length front
      → Opens incremental (first_byte front)
      → IsInt (index_bits incremental) front 0
      → IsString name_part name
      → IsString part v
      → Answer (front ++ (name_part ++ part)) (
          literal_layout incremental 0
            (length pre + length front)
            (length pre + length (front ++ name_part))
            (length pre + length (front ++ (name_part ++ part))))
  unfolding put_field
  fresh_answer incremental front name_part part small some_front opens number named_so valued t' e =
      let place : (front ++ (name_part ++ part)) ++ rest ≡ front ++ (name_part ++ (part ++ rest)) =
        append_assoc front (name_part ++ part) rest
        ∙ ap (λ (l : List ℕ). front ++ l) (append_assoc name_part part rest) in
      let block : List ℕ = pre ++ (front ++ (name_part ++ (part ++ rest))) in
      let whole : block ≡ pre ++ ((front ++ name_part) ++ (part ++ rest)) =
        ap (λ (l : List ℕ). pre ++ l) (sym (append_assoc front name_part (part ++ rest))) in
      let head : slice block (length pre) (length pre + length (front ++ name_part))
          ≡ front ++ name_part =
        ap (λ (b : List ℕ). slice b (length pre) (length pre + length (front ++ name_part))) whole
        ∙ slice_middle pre (front ++ name_part) (part ++ rest) in
      let all : length (front ++ (name_part ++ part)) ≡ length ((front ++ name_part) ++ part) =
        ap length (sym (append_assoc front name_part part)) in
      let tail : slice block (length pre + length (front ++ name_part))
            (length pre + length (front ++ (name_part ++ part)))
          ≡ part =
        ap₂
          (λ (b : List ℕ) (k : ℕ).
            slice b (length pre + length (front ++ name_part)) (length pre + k))
          whole all
        ∙ slice_second pre (front ++ name_part) part rest in
      rw
        (
          place,
          byte_at_front pre front (name_part ++ (part ++ rest)) some_front,
          head,
          slice_second pre front name_part (part ++ rest),
          tail,
        )
        (put_name_fresh crate sixty_one t valid limit name mapped name_fits value_fits incremental
          front (put_value crate v mapped part) t' small opens
          (put_value-IsString crate sixty_one t valid limit name mapped name_fits value_fits v part
            valued)
          (grown_lem incremental 0 _ _ _ t' e) name_part number named_so)

  -- The layout that `layout` finds decides what is written.
  answer_at :
      (bytes : List ℕ) (l l' : Layout)
      → Answer bytes l'
      → layout (pre ++ (bytes ++ rest)) (length pre) ≡ ok l
      → layout (pre ++ (bytes ++ rest)) (length pre) ≡ ok l'
      → Answer bytes l
  answer_at bytes l l' answer e e' = subst (Answer bytes) (ok-injective (sym e' ∙ e)) answer

  -- The bytes that `put_field` writes for a field represent it with the mapped value.
  pub put_field-Field :
      (u u' : Table) (bytes : List ℕ) (l : Layout)
      → Field crate.static_table u bytes (name, v) u'
      → first_byte bytes < 256
      → layout (pre ++ (bytes ++ rest)) (length pre) ≡ ok l
      → Answer bytes l
  put_field-Field u u' bytes l (indexed n top number found same) small e =
      answer_at bytes l _
        (indexed_answer bytes n top number (get_some_suc crate.static_table u n (name, v) found)) e
        (layout_indexed pre bytes rest n top number)
  put_field-Field u u' bytes l
        (named incremental front part n key place opens number found same valued grown) small e =
      subst
        (λ (b : List ℕ).
          first_byte b < 256 → layout (pre ++ (b ++ rest)) (length pre) ≡ ok l → Answer b l)
        (sym place)
        (λ small_b laid.
          let some_front = IsInt-some (index_bits incremental) front n number in
          answer_at (front ++ part) l _
            (named_answer incremental front part n
              (subst (λ (c : ℕ). c < 256) (first_append front part some_front) small_b) some_front
              opens number (get_some_suc crate.static_table u n key found) valued)
            laid
            (layout_named pre front part rest v incremental n opens number
              (get_some_suc crate.static_table u n key found) valued))
        small e
  put_field-Field u u' bytes l
        (fresh incremental front name_part part place opens number named_so valued grown) small e =
      subst
        (λ (b : List ℕ).
          first_byte b < 256 → layout (pre ++ (b ++ rest)) (length pre) ≡ ok l → Answer b l)
        (sym place)
        (λ small_b laid.
          let some_front = IsInt-some (index_bits incremental) front 0 number in
          answer_at (front ++ (name_part ++ part)) l _
            (fresh_answer incremental front name_part part
              (subst (λ (c : ℕ). c < 256) (first_append front (name_part ++ part) some_front)
                small_b)
              some_front opens number named_so valued)
            laid
            (layout_fresh pre front name_part part rest name v incremental opens number named_so
              valued))
        small e
