-- ===== src/Tls/Order/Permutation.antt =====
-- What the order is: the client's, then the backend's.
use mathlib.Core.List.{
  Mem, Nodup, Perm, not-mem-nil, mem-cons, Nodup-cons, Nodup-nil, perm_ext_iff_of_Nodup,
}
use mathlib.Core.Logic.Or
use fingerprint_bridge.Base.{
  ℕ, ◌≡◌, refl, sym, ap, ◌∙◌, inl, inr, List, [], ◌∷◌, ◌++◌, append_assoc, append-nil, Bool, true,
  false, not, ◌&&◌, ◌||◌, ◌==◌, ==_iff, if◌then◌else◌, Bool-cases, arith,
}
use fingerprint_bridge.Std.Ascii.{elem}
use fingerprint_bridge.Tls.Order.{backend_extensions, order_loop, extension_order}

-- The members of `table` among the identifiers, each where it stands first, without those that were
-- seen.
unfoldable pub firsts : List ℕ → List ℕ → List ℕ → List ℕ
firsts table seen [] = []
firsts table seen (id ∷ ids) =
    let fresh = id ∷ firsts table (id ∷ seen) ids in
    let old = firsts table seen ids in if elem id table && not (elem id seen) then fresh else old

elem-append : (x : ℕ) (xs ys : List ℕ) → elem x (xs ++ ys) ≡ (elem x xs || elem x ys)
unfolding elem
elem-append x [] ys = refl
elem-append x (z ∷ xs) ys = ground (arith, elem-append x xs ys)

elem_nil : (x : ℕ) → elem x [] ≡ false
unfolding elem
elem_nil x = refl

elem_cons : (x y : ℕ) (ys : List ℕ) → elem x (y ∷ ys) ≡ (x == y || elem x ys)
unfolding elem
elem_cons x y ys = refl

-- It matters only which identifiers of the table were seen.
firsts_seen :
    (table seen seen' ids : List ℕ)
    → ((x : ℕ) → elem x table ≡ true → elem x seen ≡ elem x seen')
    → firsts table seen ids ≡ firsts table seen' ids
unfolding firsts
firsts_seen table seen seen' [] h = refl
firsts_seen table seen seen' (id ∷ ids) h = elim (Bool-cases (elem id table)) [
  | inl known ↦
      let more : (x : ℕ) → elem x table ≡ true → elem x (id ∷ seen) ≡ elem x (id ∷ seen') = λ x t.
        elem_cons x id seen
        ∙ ap (λ (b : Bool). x == id || b) (h x t)
        ∙ sym (elem_cons x id seen') in
      ground (
        arith,
        h id known,
        firsts_seen table seen seen' ids h,
        firsts_seen table (id ∷ seen) (id ∷ seen') ids more,
      )
  | inr unknown ↦ ground (arith, firsts_seen table seen seen' ids h)
]

order_loop-firsts :
    (table ids order : List ℕ) → order_loop table ids order ≡ order ++ firsts table order ids
unfolding order_loop firsts
order_loop-firsts table [] order = sym (append-nil order)
order_loop-firsts table (id ∷ ids) order =
    elim (Bool-cases (elem id table && not (elem id order))) [
      | inl fresh ↦ rw fresh (
          order_loop-firsts table ids (order ++ id ∷ [])
          ∙ append_assoc order (id ∷ []) (firsts table (order ++ id ∷ []) ids)
          ∙ ap (λ (l : List ℕ). order ++ id ∷ l)
              (firsts_seen table (order ++ id ∷ []) (id ∷ order) ids (λ x t. ground (
                arith,
                elem-append x order (id ∷ []),
                elem_cons x id [],
                elem_cons x id order,
                elem_nil x,
              ))))
      | inr old ↦ rw old (order_loop-firsts table ids order)
    ]

-- A member of the result is a member of the table that stands among the identifiers and was not seen.
elem-firsts :
    (x : ℕ) (table seen ids : List ℕ)
    → elem x (firsts table seen ids) ≡ (elem x table && not (elem x seen) && elem x ids)
unfolding elem firsts
elem-firsts x table seen [] = ground arith
elem-firsts x table seen (id ∷ ids) =
    ground (arith, elem-firsts x table seen ids, elem-firsts x table (id ∷ seen) ids, ==_iff x id)

firsts-append :
    (table seen xs ys : List ℕ)
    → firsts table seen (xs ++ ys) ≡ firsts table seen xs ++ firsts table (xs ++ seen) ys
unfolding firsts
firsts-append table seen [] ys = refl
firsts-append table seen (id ∷ xs) ys = elim (Bool-cases (elem id table && not (elem id seen))) [
  | inl fresh ↦ rw fresh (
      ap (λ (l : List ℕ). id ∷ l)
        (firsts-append table (id ∷ seen) xs ys
          ∙ ap (λ (l : List ℕ). firsts table (id ∷ seen) xs ++ l)
              (firsts_seen table (xs ++ id ∷ seen) (id ∷ (xs ++ seen)) ys (λ x t. ground (
                arith,
                elem-append x xs (id ∷ seen),
                elem-append x xs seen,
                elem_cons x id seen,
                elem_cons x id (xs ++ seen),
              )))))
  | inr old ↦ rw old (
      firsts-append table seen xs ys
      ∙ ap (λ (l : List ℕ). firsts table seen xs ++ l)
          (firsts_seen table (xs ++ seen) (id ∷ (xs ++ seen)) ys (λ x t.
            ground
              (arith, old, t, ==_iff x id, elem-append x xs seen, elem_cons x id (xs ++ seen)))))
]

-- Those of the identifiers that are not among others.
unfoldable pub absent : List ℕ → List ℕ → List ℕ
absent others [] = []
absent others (id ∷ ids) = if elem id others then absent others ids else id ∷ absent others ids

-- No identifier stands twice.
unfoldable pub distinct : List ℕ → Bool
distinct [] = true
distinct (id ∷ ids) = not (elem id ids) && distinct ids

firsts-absent :
    (table seen others ids : List ℕ)
    → ((x : ℕ) → elem x ids ≡ true → elem x table ≡ true)
    → ((x : ℕ) → elem x ids ≡ true → elem x seen ≡ elem x others)
    → distinct ids ≡ true
    → firsts table seen ids ≡ absent others ids
unfolding firsts absent distinct
firsts-absent table seen others [] h k d = refl
firsts-absent table seen others (id ∷ ids) h k d =
    let here : elem id (id ∷ ids) ≡ true = ground (arith, elem_cons id id ids) in
    let later : (x : ℕ) → elem x ids ≡ true → elem x (id ∷ ids) ≡ true =
      λ x e. ground (arith, elem_cons x id ids) in
    let same : (x : ℕ) → elem x ids ≡ true → elem x (id ∷ seen) ≡ elem x others =
      λ x e. ground (arith, d, ==_iff x id, elem_cons x id seen, k x (later x e)) in
    ground (
      arith,
      h id here,
      k id here,
      firsts-absent table seen others ids (λ x e. h x (later x e)) (λ x e. k x (later x e))
          (ground (arith, d)),
      firsts-absent table (id ∷ seen) others ids (λ x e. h x (later x e)) same (ground (arith, d)),
    )

distinct-firsts : (table seen ids : List ℕ) → distinct (firsts table seen ids) ≡ true
unfolding firsts distinct
distinct-firsts table seen [] = refl
distinct-firsts table seen (id ∷ ids) = elim (Bool-cases (elem id table && not (elem id seen))) [
  | inl fresh ↦
      let not_again : elem id (firsts table (id ∷ seen) ids) ≡ false =
        ground (arith, elem-firsts id table (id ∷ seen) ids, elem_cons id id seen) in
      rw fresh (rw not_again (distinct-firsts table (id ∷ seen) ids))
  | inr old ↦ rw old (distinct-firsts table seen ids)
]

Mem-elem : (x : ℕ) (xs : List ℕ) → Mem x xs → elem x xs ≡ true
unfolding elem
Mem-elem x [] m = absurd (not-mem-nil m)
Mem-elem x (y ∷ xs) m =
    Or.elim (hlevel) (mem-cons.0 m) (λ e. ground (arith, e)) (λ t. ground (arith, Mem-elem x xs t))

elem-Mem : (x : ℕ) (xs : List ℕ) → elem x xs ≡ true → Mem x xs
unfolding elem
elem-Mem x [] e = cc e
elem-Mem x (y ∷ xs) e = elim (Bool-cases (x == y)) [
  | inl here ↦ mem-cons.1 (Or.inl ((==_iff x y).0 here))
  | inr there ↦ mem-cons.1 (Or.inr (elem-Mem x xs (ground (arith, e, there))))
]

distinct-Nodup : (xs : List ℕ) → distinct xs ≡ true → Nodup xs
unfolding distinct
distinct-Nodup [] h = Nodup-nil
distinct-Nodup (x ∷ xs) h =
    Nodup-cons.1 ((λ m. ground (arith, h, Mem-elem x xs m)), distinct-Nodup xs (ground (arith, h)))

backend_distinct : (patched : Bool) → distinct (backend_extensions patched) ≡ true
unfolding distinct elem backend_extensions
backend_distinct true = refl
backend_distinct false = refl

-- The order that the backend is given is first the extensions that the client sent and the backend
-- knows, each where the client sent it first, and then those that the client did not send, in the
-- backend's order; it is a permutation of the backend's table, whatever the client sent.
pub extension_order-Perm :
    (patched : Bool) (incoming : List ℕ)
    → (extension_order patched incoming
        ≡ firsts (backend_extensions patched) [] incoming
          ++ absent incoming (backend_extensions patched))
      × Perm (extension_order patched incoming) (backend_extensions patched)
unfolding extension_order
extension_order-Perm patched incoming =
    let table : List ℕ = backend_extensions patched in
    let whole : extension_order patched incoming ≡ firsts table [] (incoming ++ table) =
      order_loop-firsts table (incoming ++ table) [] in
    (
      whole
          ∙ firsts-append table [] incoming table
          ∙ ap (λ (l : List ℕ). firsts table [] incoming ++ l)
              (firsts-absent table (incoming ++ []) incoming table (λ x h. h)
                (λ x h. ap (elem x) (append-nil incoming)) (backend_distinct patched)),
      (perm_ext_iff_of_Nodup
            (distinct-Nodup _ (ap distinct whole ∙ distinct-firsts table [] (incoming ++ table)))
            (distinct-Nodup table (backend_distinct patched))).1
          (λ x. (
            (λ m. elem-Mem x table (
                ground (arith, whole, Mem-elem x _ m, elem-firsts x table [] (incoming ++ table)))),
            (λ m. elem-Mem x _ (
                ap (elem x) whole
                ∙ elem-firsts x table [] (incoming ++ table)
                ∙ ground (arith, Mem-elem x table m, elem_nil x, elem-append x incoming table))),
          )),
    )
