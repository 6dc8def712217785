-- ===== src/Hpack/Table.antt =====
-- `Table` of src/hpack_wire.rs: the dynamic table of the outgoing side, newest entry first. The
-- static table comes from the `hpack` crate and is a parameter.
pub mod Eviction
pub mod Lookup
use fingerprint_bridge.Base.{
  ℕ, zero, suc, ◌+◌, ◌-◌, List, [], ◌∷◌, ◌++◌, Bool, true, ◌&&◌, Option, none, some, ltb, leb, ◌==◌,
  if◌then◌else◌, length, get_elem?, reverse, Result, ok, err, ◌>>=◌,
}
use fingerprint_bridge.Base.Bytes.{bytes_eq}

abbrev pub Header : Type 0
Header = List ℕ × List ℕ

pub record Table : Type 0 where
  pub entries : List Header
  pub size : ℕ
  pub limit : ℕ

-- The size of an entry: RFC 7541, 4.1.
abbrev pub entry_size : Header → ℕ
entry_size (name, value) = length name + length value + 32

-- `while self.size > self.limit`: the entries come oldest first, as `pop` takes them. `pop` on an
-- empty vector and a size below zero are panics.
evict_oldest : List Header → ℕ → ℕ → Result (List Header × ℕ)
evict_oldest [] size limit =
    if ltb limit size then err "panic: unwrap of an empty table" else ok ([], size)
evict_oldest (h ∷ newer) size limit =
    let popped =
      if ltb size (entry_size h)
      then err "panic: subtract with overflow"
      else evict_oldest newer (size - entry_size h) limit in
    if ltb limit size then popped else ok (h ∷ newer, size)

unfoldable pub evict : Table → Result Table
unfolding evict_oldest
evict t = do
  (left, size) ← evict_oldest (reverse t.entries) t.size t.limit
  ok (record t { entries = reverse left; size = size })

unfoldable pub insert : Table → Header → Result Table
unfolding evict
insert t h = evict (record t { entries = h ∷ t.entries; size = t.size + entry_size h })

-- `h.0 == name && value.is_none_or(|v| h.1 == v)`
unfoldable pub matches : List ℕ → Option (List ℕ) → Header → Bool
unfolding bytes_eq
matches name value (n, v) = bytes_eq n name && (elim value [ none ↦ true | some w ↦ bytes_eq v w ])

-- `iter().position(test).map_or(0, |i| i + 1)`, with `i` entries passed.
unfoldable pub position : ℕ → (Header → Bool) → List Header → ℕ
position i test [] = 0
position i test (h ∷ hs) = let later = position (i + 1) test hs in if test h then i + 1 else later

module _ (static_table : List Header) where
  unfoldable pub get : Table → ℕ → Option Header
  get t index =
      if index == 0
      then none
      else if leb index 61
      then get_elem? static_table (index - 1)
      else get_elem? t.entries (index - 62)

  unfoldable pub find : Table → ℕ → List ℕ → Option (List ℕ) → ℕ
  find t preferred name value =
      let search_all = position 0 (matches name value) (static_table ++ t.entries) in
      elim (get t preferred) [
        | none ↦ search_all
        | some h ↦ if matches name value h then preferred else search_all
      ]
