-- ===== src/Hpack/Receiver/Wholes.antt =====
-- A block that ends where its first representation ends is that representation.
use mathlib.Core.Path.{subst}
use mathlib.Core.Bool.{true≢false}
use fingerprint_bridge.Base.{
  ℕ, ◌+◌, ◌*◌, ◌/◌, ◌≤◌, ◌<◌, ◌≡◌, refl, sym, ap, ◌∙◌, List, [], ◌∷◌, ◌++◌, append-nil,
  append_assoc, Bool, true, false, length, length-append, ◌==◌, arith, ok, ok-injective, bit_and,
}
use fingerprint_bridge.Base.Bits.{bit_set, agree, agree_sound}
use fingerprint_bridge.Hpack.Integer.{integer}
use fingerprint_bridge.Hpack.Integer.Prefix.{IsInt, IsInt-integer, IsInt-some}
use fingerprint_bridge.Hpack.Table.{Header, Table}
use fingerprint_bridge.Hpack.Rewriter.{Layout, layout}
use fingerprint_bridge.Hpack.Receiver.{
  first_byte, Opens, index_bits, Field, indexed, named, fresh, IsUpdate, Block, done, update, field,
}
use fingerprint_bridge.Hpack.Receiver.Layout.{first_append}
use fingerprint_bridge.Hpack.Receiver.Fields.{Field_some, Field-layout}

top_three : (x : ℕ) → x < 256 → bit_and x 0xe0 ≡ x / 32 * 32
unfolding agree
top_three = agree_sound (λ x. bit_and x 0xe0) (λ x. x / 32 * 32) 256 refl

-- The test of `step` on a first byte.
abbrev pub is_update : ℕ → Bool
is_update c = bit_and c 0xe0 == 0x20

is_update_so :
    (c : ℕ)
    → c < 256
    → bit_set c 7 ≡ false
    → bit_set c 6 ≡ false
    → bit_set c 5 ≡ true
    → is_update c ≡ true
is_update_so c small seven six five = rw (top_three c small) (ground arith)

is_update_bits :
    (c : ℕ)
    → c < 256
    → is_update c ≡ true
    → (bit_set c 7 ≡ false) × (bit_set c 6 ≡ false) × (bit_set c 5 ≡ true)
is_update_bits c small e =
    let e' : (c / 32 * 32 == 32) ≡ true = ap (λ (k : ℕ). k == 32) (sym (top_three c small)) ∙ e in
    (ground arith, ground arith, ground arith)

nothing_left : (a b : List ℕ) → length (a ++ b) ≡ length a → b ≡ []
nothing_left a [] e = refl
nothing_left a (c ∷ b) e = absurd (omega (arith, length-append a (c ∷ b)))

module _ (static_table : List Header) where
  -- How a block begins.
  data Begins (t : Table) (block : List ℕ) (hs : List Header) (t'' : Table) : Type 0 where
    at_end : block ≡ [] → hs ≡ [] → t ≡ t'' → Begins t block hs t''
    with_update :
        (bytes rest : List ℕ) (t' : Table)
        → block ≡ bytes ++ rest
        → IsUpdate static_table t bytes t'
        → Block static_table t' rest hs t''
        → Begins t block hs t''
    with_field :
        (bytes rest : List ℕ) (h : Header) (later : List Header) (t' : Table)
        → block ≡ bytes ++ rest
        → hs ≡ h ∷ later
        → Field static_table t bytes h t'
        → Block static_table t' rest later t''
        → Begins t block hs t''

  begins :
      (t : Table) (block : List ℕ) (hs : List Header) (t'' : Table)
      → Block static_table t block hs t''
      → Begins t block hs t''
  begins _ _ _ _ done = at_end refl refl refl
  begins _ _ _ _ (update bytes rest u b) = with_update bytes rest _ refl u b
  begins _ _ _ _ (field bytes rest f b) = with_field bytes rest _ _ _ refl refl f b

  stays : (t t'' : Table) (hs : List Header) → Block static_table t [] hs t'' → t ≡ t''
  stays t t'' hs b = elim (begins t [] hs t'' b) [
    | at_end e none_left same ↦ same
    | with_update bytes rest t' e (n, seven, six, five, number, evicted) more ↦
        absurd (omega (arith, ap length e, length-append bytes rest, IsInt-some 5 bytes n number))
    | with_field bytes rest h later t' e e' f more ↦ absurd (
        omega
          (arith, ap length e, length-append bytes rest, Field_some static_table t t' bytes h f))
  ]

  opened :
      (incremental : Bool) (c : ℕ)
      → Opens incremental c
      → (bit_set c 7 ≡ false) × (bit_set c 6 ≡ false) × (bit_set c 5 ≡ true)
      → ⊥
  opened true c (seven, six) (seven', six', five') = true≢false (sym six ∙ six')
  opened false c (seven, six, five) (seven', six', five') = true≢false (sym five' ∙ five)

  not_update :
      (t t' : Table) (bytes : List ℕ) (h : Header)
      → Field static_table t bytes h t'
      → first_byte bytes < 256
      → is_update (first_byte bytes) ≡ true
      → ⊥
  not_update t t' bytes h (indexed n top number found same) small e =
      let (seven, six, five) = is_update_bits (first_byte bytes) small e in
      true≢false (sym top ∙ seven)
  not_update t t' bytes h
        (named incremental front part n key place opens number found same valued grown) small e =
      opened incremental (first_byte front) opens (
        is_update_bits (first_byte front) (subst (λ (c : ℕ). c < 256) first small)
          (ap is_update (sym first) ∙ e))
    where
      first : first_byte bytes ≡ first_byte front
      first =
          ap first_byte place
          ∙ first_append front part (IsInt-some (index_bits incremental) front n number)
  not_update t t' bytes h
        (fresh incremental front name_part part place opens number named_so valued grown) small e =
      opened incremental (first_byte front) opens (
        is_update_bits (first_byte front) (subst (λ (c : ℕ). c < 256) first small)
          (ap is_update (sym first) ∙ e))
    where
      first : first_byte bytes ≡ first_byte front
      first =
          ap first_byte place
          ∙ first_append front (name_part ++ part)
              (IsInt-some (index_bits incremental) front 0 number)

  -- A block with one header that ends where `layout` says is one field.
  pub one_field :
      (t t'' : Table) (pre bytes rest : List ℕ) (h : Header) (l : Layout)
      → Block static_table t bytes (h ∷ []) t''
      → first_byte bytes < 256
      → is_update (first_byte bytes) ≡ false
      → layout (pre ++ (bytes ++ rest)) (length pre) ≡ ok l
      → l.end ≡ length pre + length bytes
      → Field static_table t bytes h t''
  one_field t t'' pre bytes rest h l b small literal laid end =
      elim (begins t bytes (h ∷ []) t'' b) [
        | at_end e none_left same ↦ cc
        | with_update first more t' e (n, seven, six, five, number, evicted) later ↦
            let same : first_byte bytes ≡ first_byte first =
              ap first_byte e ∙ first_append first more (IsInt-some 5 first n number) in
            absurd (
              true≢false (
                sym (
                  is_update_so (first_byte first) (subst (λ (c : ℕ). c < 256) same small) seven six
                    five)
                ∙ ap is_update (sym same)
                ∙ literal))
        | with_field first more k later t' e one f others ↦
            let place : pre ++ (bytes ++ rest) ≡ pre ++ (first ++ (more ++ rest)) =
              ap (λ (c : List ℕ). pre ++ (c ++ rest)) e
              ∙ ap (λ (c : List ℕ). pre ++ c) (append_assoc first more rest) in
            let ends : l.end ≡ length pre + length first =
              Field-layout static_table t t' pre first (more ++ rest) k l f
                (ap (λ (c : List ℕ). layout c (length pre)) (sym place) ∙ laid) in
            let gone : more ≡ [] =
              nothing_left first more (omega (arith, end, ends, ap length e)) in
            let whole : first ≡ bytes =
              sym (append-nil first) ∙ ap (λ (c : List ℕ). first ++ c) (sym gone) ∙ sym e in
            let same : k ≡ h = cc in
            let last : t' ≡ t'' =
              stays t' t'' later
                (subst (λ (c : List ℕ). Block static_table t' c later t'') gone others) in
            subst (Field static_table t bytes h) last (
              subst (λ (c : List ℕ). Field static_table t c h t') whole
                (subst (λ (g : Header). Field static_table t first g t') same f))
      ]

  -- A block that ends where the number of an update ends is that update.
  pub one-IsUpdate :
      (t t'' : Table) (pre bytes rest : List ℕ) (hs : List Header) (n : ℕ)
      → Block static_table t bytes hs t''
      → first_byte bytes < 256
      → 1 ≤ length bytes
      → is_update (first_byte bytes) ≡ true
      → integer (pre ++ (bytes ++ rest)) (length pre) 5 ≡ ok (n, length pre + length bytes)
      → IsUpdate static_table t bytes t'' × IsInt 5 bytes n
  one-IsUpdate t t'' pre bytes rest hs n b small some_bytes test read =
      elim (begins t bytes hs t'' b) [
        | at_end e none_left same ↦ absurd (omega (arith, ap length e))
        | with_update first more t' e (k, seven, six, five, number, evicted) later ↦
            let place : pre ++ (bytes ++ rest) ≡ pre ++ (first ++ (more ++ rest)) =
              ap (λ (c : List ℕ). pre ++ (c ++ rest)) e
              ∙ ap (λ (c : List ℕ). pre ++ c) (append_assoc first more rest) in
            let same : (k, length pre + length first) ≡ (n, length pre + length bytes) =
              ok-injective (
                sym (IsInt-integer pre first (more ++ rest) 5 k number)
                ∙ ap (λ (c : List ℕ). integer c (length pre) 5) (sym place)
                ∙ read) in
            let gone : more ≡ [] =
              nothing_left first more (omega (arith, ap (λ (x : ℕ × ℕ). x.1) same, ap length e)) in
            let whole : first ≡ bytes =
              sym (append-nil first) ∙ ap (λ (c : List ℕ). first ++ c) (sym gone) ∙ sym e in
            let last : t' ≡ t'' =
              stays t' t'' hs (subst (λ (c : List ℕ). Block static_table t' c hs t'') gone later) in
            (
              subst (IsUpdate static_table t bytes) last (
                  subst (λ (c : List ℕ). IsUpdate static_table t c t') whole
                    (k, seven, six, five, number, evicted)),
              subst (λ (c : List ℕ). IsInt 5 c n) whole
                  (subst (IsInt 5 first) (ap (λ (x : ℕ × ℕ). x.0) same) number),
            )
        | with_field first more h later t' e e' f others ↦
            let same : first_byte bytes ≡ first_byte first =
              ap first_byte e ∙ first_append first more (Field_some static_table t t' first h f) in
            absurd (
              not_update t t' first h f (subst (λ (c : ℕ). c < 256) same small)
                (ap is_update (sym same) ∙ test))
      ]
