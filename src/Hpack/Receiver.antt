-- ===== src/Hpack/Receiver.antt =====
-- What a header block means to a peer that receives it: the representations of RFC 7541, 5 and 6, as
-- relations between bytes, headers and the dynamic table. This is the specification that the rewriter
-- of src/hpack_wire.rs is held against.
pub mod Strings
pub mod Layout
pub mod Bits
pub mod Written
pub mod Fields
pub mod Wholes
pub mod Pieces
pub mod Steps
pub mod Rewritten
use fingerprint_bridge.Base.{
  ℕ, ◌+◌, ◌-◌, ◌*◌, ◌^◌, ◌<◌, ◌≡◌, List, [], ◌∷◌, ◌++◌, Bool, true, false, Option, some, length, ok,
  if◌then◌else◌,
}
use fingerprint_bridge.Base.Bits.{bit_set}
use fingerprint_bridge.Hpack.Integer.Prefix.{IsInt}
use fingerprint_bridge.Hpack.Strings.Padding.{number_of, codes_number, codes_width}
use fingerprint_bridge.Hpack.Table.{Header, Table, evict, insert, get}

abbrev pub first_byte : List ℕ → ℕ
first_byte [] = 0
first_byte (c ∷ rest) = c

-- 5.2: the codes of the string one after the other, filled up by fewer than eight ones.
abbrev pub IsHuffman : List ℕ → List ℕ → Type 0
IsHuffman payload v =
    (pad : ℕ) × (pad < 8)
    × (8 * length payload ≡ codes_width v + pad)
    × (number_of 0 payload ≡ codes_number 0 v * 2 ^ pad + (2 ^ pad - 1))

-- 5.2: the length, under a bit that says whether Huffman codes follow, and the string.
pub data IsString (bytes v : List ℕ) : Type 0 where
  plain :
      (front : List ℕ)
      → bytes ≡ front ++ v
      → IsInt 7 front (length v)
      → bit_set (first_byte front) 7 ≡ false
      → IsString bytes v
  coded :
      (front payload : List ℕ)
      → bytes ≡ front ++ payload
      → IsInt 7 front (length payload)
      → bit_set (first_byte front) 7 ≡ true
      → IsHuffman payload v
      → IsString bytes v

-- 6.2: a literal goes into the table under 01, and does not under 0000 and 0001.
abbrev pub Opens : Bool → ℕ → Type 0
Opens true c = (bit_set c 7 ≡ false) × (bit_set c 6 ≡ true)
Opens false c = (bit_set c 7 ≡ false) × (bit_set c 6 ≡ false) × (bit_set c 5 ≡ false)

abbrev pub index_bits : Bool → ℕ
index_bits incremental = if incremental then 6 else 4

abbrev pub Grown : Bool → Table → Header → Table → Type 0
Grown true t h t' = insert t h ≡ ok t'
Grown false t h t' = t ≡ t'

module _ (static_table : List Header) where
  -- 6.1, 6.2: the bytes represent the header under the table `t`, and leave the table `t'`.
  pub data Field (t : Table) (bytes : List ℕ) (h : Header) (t' : Table) : Type 0 where
    indexed :
        (n : ℕ)
        → bit_set (first_byte bytes) 7 ≡ true
        → IsInt 7 bytes n
        → get static_table t n ≡ some h
        → t ≡ t'
        → Field t bytes h t'
    named :
        (incremental : Bool) (front part : List ℕ) (n : ℕ) (key : Header)
        → bytes ≡ front ++ part
        → Opens incremental (first_byte front)
        → IsInt (index_bits incremental) front n
        → get static_table t n ≡ some key
        → key.0 ≡ h.0
        → IsString part h.1
        → Grown incremental t h t'
        → Field t bytes h t'
    fresh :
        (incremental : Bool) (front name_part part : List ℕ)
        → bytes ≡ front ++ (name_part ++ part)
        → Opens incremental (first_byte front)
        → IsInt (index_bits incremental) front 0
        → IsString name_part h.0
        → IsString part h.1
        → Grown incremental t h t'
        → Field t bytes h t'

  -- 6.3: the new limit under 001.
  abbrev pub IsUpdate : Table → List ℕ → Table → Type 0
  IsUpdate t bytes t' =
      (n : ℕ) × (bit_set (first_byte bytes) 7 ≡ false)
      × (bit_set (first_byte bytes) 6 ≡ false)
      × (bit_set (first_byte bytes) 5 ≡ true)
      × IsInt 5 bytes n
      × (evict (record t { limit = n }) ≡ ok t')

  -- The headers of a block, in their order.
  pub data Block : Table → List ℕ → List Header → Table → Type 0 where
    done : {t : Table} → Block t [] [] t
    update :
        {t t' t'' : Table} (bytes rest : List ℕ) {hs : List Header}
        → IsUpdate t bytes t'
        → Block t' rest hs t''
        → Block t (bytes ++ rest) hs t''
    field :
        {t t' t'' : Table} (bytes rest : List ℕ) {h : Header} {hs : List Header}
        → Field t bytes h t'
        → Block t' rest hs t''
        → Block t (bytes ++ rest) (h ∷ hs) t''
