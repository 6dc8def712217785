-- ===== src/Hpack/Table/Eviction.antt =====
-- The table never exceeds its limit, and drops the oldest entries only.
use mathlib.Core.List.{reverse-cons, reverse-reverse}
use fingerprint_bridge.Base.{
  ℕ, ◌+◌, ◌-◌, ◌≤◌, ◌≡◌, refl, sym, ap, ◌∙◌, List, [], ◌∷◌, ◌++◌, ltb, leb, false, if◌then◌else◌,
  reverse, ok, arith, Bool-cases, inl, inr,
}
use fingerprint_bridge.Hpack.Table.{Header, Table, entry_size, evict_oldest, evict, insert}

abbrev pub total : List Header → ℕ
total [] = 0
total (h ∷ hs) = entry_size h + total hs

-- What RFC 7541, 4.3 and 4.4 leave of a table, newest entry first: the entries from the newest on
-- until one does not fit any more.
unfoldable pub fit : ℕ → List Header → List Header
fit limit [] = []
fit limit (h ∷ hs) = if leb (entry_size h) limit then h ∷ fit (limit - entry_size h) hs else []

-- The same with the oldest entry first.
keep : ℕ → List Header → List Header
keep limit [] = []
keep limit (h ∷ newer) = if ltb limit (total (h ∷ newer)) then keep limit newer else h ∷ newer

evict_oldest-keep :
    (limit : ℕ) (hs : List Header)
    → evict_oldest hs (total hs) limit ≡ ok (keep limit hs, total (keep limit hs))
unfolding evict_oldest keep
evict_oldest-keep limit [] = ground arith
evict_oldest-keep limit (h ∷ newer) = elim (Bool-cases (ltb limit (total (h ∷ newer)))) [
  | inl over ↦
      let left : total (h ∷ newer) - entry_size h ≡ total newer = omega arith in
      let enough : ltb (total (h ∷ newer)) (entry_size h) ≡ false = ground arith in
      rw over (rw enough (rw left (evict_oldest-keep limit newer)))
  | inr within ↦ rw within refl
]

total-snoc : (hs : List Header) (h : Header) → total (hs ++ h ∷ []) ≡ total hs + entry_size h
total-snoc [] h = omega arith
total-snoc (x ∷ hs) h = omega (arith, total-snoc hs h)

fit-snoc :
    (limit : ℕ) (hs : List Header) (h : Header)
    → fit limit (hs ++ h ∷ [])
      ≡ (if ltb limit (total hs + entry_size h) then fit limit hs else hs ++ h ∷ [])
unfolding fit
fit-snoc limit [] h = ground arith
fit-snoc limit (x ∷ hs) h = ground (arith, fit-snoc (limit - entry_size x) hs h)

total-reverse : (hs : List Header) → total (reverse hs) ≡ total hs
total-reverse [] = refl
total-reverse (h ∷ hs) =
    rw reverse-cons (omega (arith, total-snoc (reverse hs) h, total-reverse hs))

reverse-keep : (limit : ℕ) (hs : List Header) → reverse (keep limit hs) ≡ fit limit (reverse hs)
unfolding keep
reverse-keep limit [] = unfold fit in refl
reverse-keep limit (h ∷ newer) = elim (Bool-cases (ltb limit (total (h ∷ newer)))) [
  | inl over ↦
      rw over (rw reverse-cons (reverse-keep limit newer ∙ sym (step ∙ rw (size_lem, over))))
  | inr within ↦ rw within (rw reverse-cons (sym (step ∙ rw (size_lem, within))))
]
  where
    step : fit limit (reverse newer ++ h ∷ []) ≡ (
        if ltb limit (total (reverse newer) + entry_size h)
        then fit limit (reverse newer)
        else reverse newer ++ h ∷ [])
    step = fit-snoc limit (reverse newer) h

    size_lem : total (reverse newer) + entry_size h ≡ total (h ∷ newer)
    size_lem = omega (arith, total-reverse newer)

-- The size field counts the entries.
abbrev pub IsCounted : Table → Type 0
IsCounted t = t.size ≡ total t.entries

pub record IsValid (t : Table) : Type 0 where
  pub counted : IsCounted t
  pub within : t.size ≤ t.limit

-- Eviction of a table whose size field is right never panics: it leaves the longest run of newest
-- entries that fits the limit, and their size.
pub evict-fit :
    (t : Table)
    → IsCounted t
    → evict t
      ≡ ok (record t { entries = fit t.limit t.entries; size = total (fit t.limit t.entries) })
unfolding evict
evict-fit t h = rw h (
    rw start (
      rw evict_oldest-keep
        (rw (← total-reverse (keep t.limit (reverse t.entries))) (rw kept refl))))
  where
    start : total t.entries ≡ total (reverse t.entries)
    start = sym (total-reverse t.entries)

    kept : reverse (keep t.limit (reverse t.entries)) ≡ fit t.limit t.entries
    kept = reverse-keep t.limit (reverse t.entries) ∙ ap (fit t.limit) (reverse-reverse t.entries)

total-fit-le : (limit : ℕ) (hs : List Header) → total (fit limit hs) ≤ limit
unfolding fit
total-fit-le limit [] = omega arith
total-fit-le limit (h ∷ hs) = ground (arith, total-fit-le (limit - entry_size h) hs)

-- A successful eviction keeps the size field right and brings it within the limit.
pub evict-IsValid : (t : Table) → IsCounted t → (u : Table) × (evict t ≡ ok u) × IsValid u
evict-IsValid t h =
    (_, evict-fit t h, record { counted = refl; within = total-fit-le t.limit t.entries })

-- Inserting into a valid table never panics: the new entry stands in front of the longest run of
-- newest entries that fits beside it, or the table is empty where the entry alone does not fit, and
-- the table is valid again under the same limit.
pub insert-fit :
    (t : Table) (h : Header)
    → IsValid t
    → (u : Table) × (insert t h ≡ ok u)
      × (u.entries ≡ fit t.limit (h ∷ t.entries))
      × (u.limit ≡ t.limit)
      × IsValid u
unfolding insert
insert-fit t h v =
    let grown : Table = record t { entries = h ∷ t.entries; size = t.size + entry_size h } in
    (
      _,
      evict-fit grown (omega (arith, v.counted)),
      refl,
      refl,
      record { counted = refl; within = total-fit-le t.limit (h ∷ t.entries) },
    )
