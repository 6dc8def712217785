-- ===== src/Hpack/Receiver/Written.antt =====
-- What `put_indexed`, `put_name` and `put_value` write for a field represents the mapped field.
use mathlib.Core.Path.{subst}
use fingerprint_bridge.Base.{
  ℕ, ◌^◌, ◌≤◌, ◌<◌, ◌≡◌, refl, sym, ap, ap₂, ◌∙◌, List, ◌++◌, append-nil, append_assoc, Bool, true,
  false, none, some, length, ◌==◌, arith, bit_and, Bool-cases, inl, inr, ◌⊎◌,
}
use fingerprint_bridge.Base.Bits.{bit_set}
use fingerprint_bridge.Base.Bytes.{bytes_eq, bytes_eq_iff}
use fingerprint_bridge.Hpack.Integer.{put_int}
use fingerprint_bridge.Hpack.Integer.Prefix.{IsInt, put_int-IsInt}
use fingerprint_bridge.Hpack.Strings.{put_string}
use fingerprint_bridge.Hpack.Table.{Header, Table, matches, get, find}
use fingerprint_bridge.Hpack.Table.Eviction.{IsValid}
use fingerprint_bridge.Hpack.Table.Lookup.{find-cases}
use fingerprint_bridge.Hpack.Rewriter.{HpackCrate, put_indexed, put_name, put_value, byte_at}
use fingerprint_bridge.Hpack.Receiver.{
  first_byte, IsString, Opens, index_bits, Grown, Field, indexed, named, fresh,
}
use fingerprint_bridge.Hpack.Receiver.Strings.{put_string-IsString, seven_bits_top, top_first}
use fingerprint_bridge.Hpack.Receiver.Bits.{get_small, get_some_suc, literal_front, mask}

matches_name : (name : List ℕ) (h : Header) → matches name none h ≡ true → h.0 ≡ name
unfolding matches
matches_name name h e = ground (arith, bytes_eq_iff h.0 name)

matches_both : (name v : List ℕ) (h : Header) → matches name (some v) h ≡ true → h ≡ (name, v)
unfolding matches
matches_both name v (n, w) e =
    ap₂ (λ (x y : List ℕ). (x, y)) (ground (arith, bytes_eq_iff n name))
      (ground (arith, bytes_eq_iff w v))

module _ (crate : HpackCrate) (sixty_one : length crate.static_table ≡ 61) (t : Table)
    (valid : IsValid t) (limit : t.limit ≤ 65536) (name mapped : List ℕ)
    (name_fits : length name ≤ 1048576) (value_fits : length mapped ≤ 1048576) where
  -- What `find` says of a name, and of a name with a value.
  find_name :
      (preferred : ℕ)
      → (find crate.static_table t preferred name none ≡ 0)
        ⊎ ((h : Header) × (get crate.static_table t (find crate.static_table t preferred name none)
              ≡ some h)
            × (h.0 ≡ name))
  find_name preferred = elim (find-cases crate.static_table sixty_one t preferred name none) [
    | inl (e, rest) ↦ inl e
    | inr (h, found, fits) ↦ inr (h, found, matches_name name h fits)
  ]

  find_header :
      (preferred : ℕ)
      → (find crate.static_table t preferred name (some mapped) ≡ 0)
        ⊎ (get crate.static_table t (find crate.static_table t preferred name (some mapped))
            ≡ some (name, mapped))
  find_header preferred =
      elim (find-cases crate.static_table sixty_one t preferred name (some mapped)) [
        | inl (e, rest) ↦ inl e
        | inr (h, found, fits) ↦ inr (found ∙ ap some (matches_both name mapped h fits))
      ]

  pub put_value-IsString :
      (bytes raw : List ℕ) → IsString raw bytes → IsString (put_value crate bytes mapped raw) mapped
  unfolding put_value
  put_value-IsString bytes raw h = elim (Bool-cases (bytes_eq mapped bytes)) [
    | inl same ↦ rw same (subst (IsString raw) (sym ((bytes_eq_iff mapped bytes).0 same)) h)
    | inr other ↦ rw other (put_string-IsString mapped (bit_set (byte_at raw 0) 7) value_fits)
  ]

  reference_written :
      (n : ℕ) (h : Header)
      → get crate.static_table t n ≡ some h
      → Field crate.static_table t (put_int n 0x80 7) h t
  reference_written n h found =
      indexed n (top_first n 1 true seven_bits_top)
        (put_int-IsInt n 1 7 (get_small crate.static_table t n h valid limit found) (omega arith))
        found refl

  -- A field written as a literal, with a name of the tables or with a name of its own.
  named_written :
      (incremental : Bool) (c n : ℕ) (key : Header) (w : List ℕ) (t' : Table)
      → c < 256
      → Opens incremental c
      → get crate.static_table t n ≡ some key
      → key.0 ≡ name
      → IsString w mapped
      → Grown incremental t (name, mapped) t'
      → Field crate.static_table t
          (put_int n (bit_and c (mask incremental)) (index_bits incremental) ++ w)
          (name, mapped)
          t'
  named_written incremental c n key w t' small opens found same h grown =
      let few : n < 2 ^ 35 = get_small crate.static_table t n key valid limit found in
      let (top, number) = literal_front incremental c n small opens few in
      named incremental _ w n key refl top number found same h grown

  fresh_written :
      (incremental : Bool) (c : ℕ) (w : List ℕ) (t' : Table)
      → c < 256
      → Opens incremental c
      → IsString w mapped
      → Grown incremental t (name, mapped) t'
      → Field crate.static_table t
          (put_int 0 (bit_and c (mask incremental)) (index_bits incremental)
            ++ (put_string name false ++ w))
          (name, mapped)
          t'
  fresh_written incremental c w t' small opens h grown =
      let (top, number) = literal_front incremental c 0 small opens (omega arith) in
      fresh incremental _ (put_string name false) w refl top number
        (put_string-IsString name false name_fits) h grown

  pub put_indexed-Field :
      (n : ℕ) (raw : List ℕ)
      → bit_set (first_byte raw) 7 ≡ true
      → IsInt 7 raw n
      → (n == 0) ≡ false
      → Field crate.static_table t (put_indexed crate t n name mapped raw) (name, mapped) t
  unfolding put_indexed
  put_indexed-Field n raw top number some_index = elim (find_header n) [
    | inl nowhere ↦
        let other : (0 == n) ≡ false = ground arith in
        rw (nowhere, other)
          (elim (find_name 0) [
            | inl no_name ↦ rw no_name (
                fresh_written false 0 (put_string mapped false) t (omega arith) (refl, refl, refl)
                  plain_value refl)
            | inr (h, found, same) ↦ rw (get_some_suc crate.static_table t _ h found) (
                named_written false 0 _ h (put_string mapped false) t (omega arith)
                  (refl, refl, refl) found same plain_value refl)
          ])
    | inr found ↦ elim (Bool-cases (find crate.static_table t n name (some mapped) == n)) [
      | inl same ↦
          let there : find crate.static_table t n name (some mapped) ≡ n = ground arith in
          rw same (indexed n top number (ap (get crate.static_table t) (sym there) ∙ found) refl)
      | inr other ↦
          rw (other, get_some_suc crate.static_table t _ (name, mapped) found)
            (reference_written _ (name, mapped) found)
    ]
  ]
    where
      plain_value : IsString (put_string mapped false) mapped
      plain_value = put_string-IsString mapped false value_fits

  module _ (incremental : Bool) (front w : List ℕ) (t' : Table) (small : first_byte front < 256)
      (opens : Opens incremental (first_byte front)) (valued : IsString w mapped)
      (grown : Grown incremental t (name, mapped) t') where
    pub put_name-Field :
        (n : ℕ) (raw_name : List ℕ)
        → IsInt (index_bits incremental) front n
        → (n == 0) ≡ false
        → Field crate.static_table t
            (put_name crate t
                (first_byte front)
                incremental
                (index_bits incremental)
                n
                name
                front
                raw_name
              ++ w)
            (name, mapped)
            t'
    unfolding put_name
    put_name-Field n raw_name number some_name = elim (find_name n) [
      | inl nowhere ↦
          let other : (0 == n) ≡ false = ground arith in
          rw (some_name, nowhere, other, append_assoc)
            (fresh_written incremental (first_byte front) w t' small opens valued grown)
      | inr (h, found, same) ↦ elim (Bool-cases (find crate.static_table t n name none == n)) [
        | inl here ↦
            let there : find crate.static_table t n name none ≡ n = ground arith in
            rw (some_name, here)
              (named incremental front w n h refl opens number
                (ap (get crate.static_table t) (sym there) ∙ found) same valued grown)
        | inr other ↦
            rw (some_name, other, get_some_suc crate.static_table t _ h found, append-nil)
              (named_written incremental (first_byte front) _ h w t' small opens found same valued
                grown)
      ]
    ]

    -- A name of its own stays as it is.
    pub put_name_fresh :
        (name_part : List ℕ)
        → IsInt (index_bits incremental) front 0
        → IsString name_part name
        → Field crate.static_table t
            (put_name crate t
                (first_byte front)
                incremental
                (index_bits incremental)
                0
                name
                (front ++ name_part)
                name_part
              ++ w)
            (name, mapped)
            t'
    unfolding put_name
    put_name_fresh name_part number named_so =
        rw append_assoc
          (fresh incremental front name_part w refl opens number named_so valued grown)
