-- ===== src/Tests/Json.antt =====
-- A concrete `Json`: trees, in which an object is its fields one after the other.
use mathlib.Core.Option.{some-injective, none-ne-some}
use fingerprint_bridge.Base.{
  ℕ, suc, ◌≤◌, ◌<◌, ◌≡◌, refl, sym, ap, ◌∙◌, inl, inr, List, [], ◌∷◌, Bool, true, false, ◌&&◌,
  Option, none, some, max, if◌then◌else◌, Bool-cases, arith,
}
use fingerprint_bridge.Base.Bytes.{bytes_eq}
use fingerprint_bridge.Fingerprint.Json.{Json}

pub data Tree : Type 0 where
  nul : Tree
  word : List ℕ → Tree
  bare : Tree
  with_field : List ℕ → Tree → Tree → Tree

abbrev pub tree_depth : Tree → ℕ
tree_depth nul = 0
tree_depth (word s) = 0
tree_depth bare = 1
tree_depth (with_field k v fields) = suc (max (tree_depth v) (tree_depth fields))

unfoldable pub tree_find : Tree → List ℕ → Option Tree
unfolding bytes_eq
tree_find (with_field k v fields) q =
    let later = tree_find fields q in if bytes_eq k q then some v else later
tree_find _ q = none

abbrev pub tree_keys : Tree → List (List ℕ)
tree_keys (with_field k v fields) = k ∷ tree_keys fields
tree_keys _ = []

abbrev pub tree_object : Tree → Option Tree
tree_object nul = none
tree_object (word s) = none
tree_object bare = some bare
tree_object (with_field k v fields) = some (with_field k v fields)

unfoldable pub tree_equal : Tree → Tree → Bool
unfolding bytes_eq
tree_equal nul nul = true
tree_equal (word s) (word t) = bytes_eq s t
tree_equal bare bare = true
tree_equal (with_field k v fields) (with_field q w rest) =
    bytes_eq k q && tree_equal v w && tree_equal fields rest
tree_equal _ _ = false

abbrev pub tree_of : List (List ℕ × Tree) → Tree
tree_of [] = bare
tree_of ((k, v) ∷ fields) = with_field k v (tree_of fields)

abbrev pub is_nul : Tree → Bool
is_nul nul = true
is_nul _ = false

abbrev pub is_bare : Tree → Bool
is_bare bare = true
is_bare _ = false

pub object_depth : (v m : Tree) → tree_object v ≡ some m → 1 ≤ tree_depth v
object_depth nul m e = cc e
object_depth (word s) m e = cc e
object_depth bare m e = omega arith
object_depth (with_field k v fields) m e = omega arith

pub object_self : (v m : Tree) → tree_object v ≡ some m → m ≡ v
object_self nul m e = cc e
object_self (word s) m e = cc e
object_self bare m e = cc e
object_self (with_field k v fields) m e = cc e

pub found_depth :
    (m : Tree) (q : List ℕ) (w : Tree) → tree_find m q ≡ some w → tree_depth w < tree_depth m
unfolding tree_find
found_depth nul q w e = absurd (none-ne-some w e)
found_depth (word s) q w e = absurd (none-ne-some w e)
found_depth bare q w e = absurd (none-ne-some w e)
found_depth (with_field k v fields) q w e = elim (Bool-cases (bytes_eq k q)) [
  | inl same ↦
      let it : v ≡ w =
        some-injective v w
          (ap (λ (b : Bool). if b then some v else tree_find fields q) (sym same) ∙ e) in
      omega (arith, ap (λ (t : Tree). tree_depth t) it)
  | inr other ↦
      let further : tree_find fields q ≡ some w =
        ap (λ (b : Bool). if b then some v else tree_find fields q) (sym other) ∙ e in
      omega (arith, found_depth fields q w further)
]

abbrev pub trees : Json
trees = record {
  Value = Tree;
  Map = Tree;
  null = nul;
  string = word;
  object = tree_of;
  is_null = is_nul;
  as_object = tree_object;
  as_array = λ v. none;
  get = tree_find;
  equal = tree_equal;
  keys = tree_keys;
  find = tree_find;
  is_empty_map = is_bare;
  depth = tree_depth;
  depth_null = refl;
  depth_object = object_depth;
  depth_field = λ v w m k e found.
      omega (arith, found_depth m k w found, ap (λ (t : Tree). tree_depth t) (object_self v m e));
}
