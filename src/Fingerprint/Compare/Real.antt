-- ===== src/Fingerprint/Compare/Real.antt =====
-- What a reported difference is, and where it stands.
use mathlib.Core.Path.{subst}
use fingerprint_bridge.Base.{
  ℕ, zero, suc, ◌≡◌, refl, sym, ap, ◌∙◌, inl, inr, List, [], ◌∷◌, ◌++◌, append-nil, append_assoc,
  map, false, none, some, All, All-append, Among, Bool-cases, Option-cases, ◌⊎◌, ok, ok-injective,
}
use fingerprint_bridge.Fingerprint.Json.{Json}
use fingerprint_bridge.Fingerprint.Json.KeySet.{key_set}
use fingerprint_bridge.Fingerprint.Compare.{
  flat_map, Difference, field_or_null, unequal, walk, differences, observation, Comparison,
  in_layer, layers_loop, compare,
}

module _ (json : Json) where
  -- An object has the value under the key, or has no such key and the value is null.
  abbrev pub Holds : json.Map → List ℕ → json.Value → Type 0
  Holds x k v = (json.find x k ≡ some v) ⊎ ((json.find x k ≡ none) × (v ≡ json.null))

  -- The values `p` and `q` are what two documents have at the same place: the path is the keys that lead
  -- there through objects on both sides, each behind a slash.
  pub data Below : json.Value → json.Value → List ℕ → json.Value → json.Value → Type 0 where
    here : {a b : json.Value} → Below a b [] a b
    inside :
        {a b : json.Value} (x y : json.Map) (k path : List ℕ) (v w p q : json.Value)
        → json.as_object a ≡ some x
        → json.as_object b ≡ some y
        → Holds x k v
        → Holds y k w
        → Below v w path p q
        → Below a b (b'/' ∷ (k ++ path)) p q

  -- A difference between two documents, written behind a prefix.
  abbrev pub IsReal : json.Value → json.Value → List ℕ → Difference json → Type 0
  IsReal a b prefix d =
      (path : List ℕ) × (d.field ≡ prefix ++ path)
      × Below a b path d.baseline d.observed
      × (json.equal d.baseline d.observed ≡ false)

  All-flat_map :
      (P : Difference json → Type 0) (f : List ℕ → List (Difference json)) (ks : List (List ℕ))
      → ((k : List ℕ) → All P (f k))
      → All P (flat_map f ks)
  All-flat_map P f [] h = tt
  All-flat_map P f (k ∷ ks) h = All-append P (f k) (flat_map f ks) (h k) (All-flat_map P f ks h)

  All-imply :
      (P Q : Difference json → Type 0) (ds : List (Difference json))
      → ((d : Difference json) → P d → Q d)
      → All P ds
      → All Q ds
  All-imply P Q [] f h = tt
  All-imply P Q (d ∷ ds) f h = (f d h.0, All-imply P Q ds f h.1)

  field_or_null-Holds : (x : json.Map) (k : List ℕ) → Holds x k (field_or_null json x k)
  unfolding field_or_null
  field_or_null-Holds x k = elim (Option-cases (json.find x k)) [
    | inl missing ↦ inr (missing, rw (missing, field_or_null) refl)
    | inr (v, found) ↦ inl (found ∙ rw (found, field_or_null) refl)
  ]

  unequal-IsReal :
      (prefix : List ℕ) (a b : json.Value) → All (IsReal a b prefix) (unequal json prefix a b)
  unfolding unequal
  unequal-IsReal prefix a b = elim (Bool-cases (json.equal a b)) [
    | inl same ↦ rw (same, unequal) tt
    | inr other ↦ rw other (([], sym (append-nil prefix), here, other), tt)
  ]

  inside-IsReal :
      (prefix k : List ℕ) (a b : json.Value) (x y : json.Map) (d : Difference json)
      → json.as_object a ≡ some x
      → json.as_object b ≡ some y
      → IsReal (field_or_null json x k) (field_or_null json y k) (prefix ++ b'/' ∷ k) d
      → IsReal a b prefix d
  inside-IsReal prefix k a b x y d ea eb (path, e, below, other) = (
    b'/' ∷ (k ++ path),
    e ∙ append_assoc prefix (b'/' ∷ k) path,
    inside x y k path (field_or_null json x k) (field_or_null json y k) d.baseline d.observed ea eb
        (field_or_null-Holds x k) (field_or_null-Holds y k) below,
    other,
  )

  walk-IsReal :
      (fuel : ℕ) (prefix : List ℕ) (a b : json.Value)
      → All (IsReal a b prefix) (walk json fuel prefix a b)
  unfolding walk
  walk-IsReal zero prefix a b = unequal-IsReal prefix a b
  walk-IsReal (suc fuel) prefix a b = elim (Option-cases (json.as_object a)) [
    | inl none_a ↦ rw (none_a, walk) (unequal-IsReal prefix a b)
    | inr (x, ea) ↦ elim (Option-cases (json.as_object b)) [
      | inl none_b ↦ rw (ea, none_b, walk) (unequal-IsReal prefix a b)
      | inr (y, eb) ↦
          rw (ea, eb, walk)
            (All-flat_map (IsReal a b prefix)
              (λ k.
                walk json fuel (prefix ++ b'/' ∷ k) (field_or_null json x k)
                  (field_or_null json y k))
              (key_set (json.keys x ++ json.keys y))
              (λ k.
                All-imply _ (IsReal a b prefix) _ (λ d. inside-IsReal prefix k a b x y d ea eb)
                  (walk-IsReal fuel (prefix ++ b'/' ∷ k) (field_or_null json x k)
                    (field_or_null json y k))))
    ]
  ]

  -- A difference between what two pieces of evidence have as one of the layers, at its place.
  abbrev pub IsFound : json.Value → json.Value → List (List ℕ) → Difference json → Type 0
  IsFound a b layers d =
      (layer : List ℕ) × (x : json.Value) × (y : json.Value) × Among layer layers
      × (observation json a layer ≡ some x)
      × (observation json b layer ≡ some y)
      × IsReal x y (b'/' ∷ layer) d

  -- A layer that was asked for and that one side did not observe.
  abbrev pub IsMissing : json.Value → json.Value → List (List ℕ) → List ℕ → Type 0
  IsMissing a b layers layer =
      Among layer layers × ((observation json a layer ≡ none) ⊎ (observation json b layer ≡ none))

  All-in_layer :
      (a b x y : json.Value) (layer : List ℕ) (layers : List (List ℕ)) (ds : List (Difference json))
      → Among layer layers
      → observation json a layer ≡ some x
      → observation json b layer ≡ some y
      → All (IsReal x y []) ds
      → All (IsFound a b layers) (map (in_layer json layer) ds)
  unfolding in_layer
  All-in_layer a b x y layer layers [] asked ea eb h = tt
  All-in_layer a b x y layer layers (d ∷ ds) asked ea eb ((path, e, below, other), there) = (
    (layer, x, y, asked, ea, eb, (path, ap (λ (t : List ℕ). b'/' ∷ (layer ++ t)) e, below, other)),
    All-in_layer a b x y layer layers ds asked ea eb there,
  )

  layers_loop-IsFound :
      (a b : json.Value) (asked layers : List (List ℕ))
      → ((layer : List ℕ) → Among layer layers → Among layer asked)
      → All (IsMissing a b asked) (layers_loop json a b layers).0
        × All (IsFound a b asked) (layers_loop json a b layers).1
  unfolding layers_loop differences
  layers_loop-IsFound a b asked [] within = (tt, tt)
  layers_loop-IsFound a b asked (layer ∷ layers) within =
      let (missing, found) = layers_loop-IsFound a b asked layers (λ l m. within l (inr m)) in
      let it : Among layer asked = within layer (inl refl) in
      elim (Option-cases (observation json a layer)) [
        | inl none_a ↦ rw (none_a, layers_loop) (((it, inl none_a), missing), found)
        | inr (x, ea) ↦ elim (Option-cases (observation json b layer)) [
          | inl none_b ↦ rw (ea, none_b, layers_loop) (((it, inr none_b), missing), found)
          | inr (y, eb) ↦
              rw (ea, eb, layers_loop)
                (
                  missing,
                  All-append (IsFound a b asked) (map (in_layer json layer) (differences json x y))
                      (layers_loop json a b layers).1
                      (All-in_layer a b x y layer asked (differences json x y) it ea eb
                        (walk-IsReal (json.depth x) [] x y))
                      found,
                )
        ]
      ]

  -- What a comparison reports is so. Each difference is between two values that are not equal and that
  -- the two pieces of evidence have, the baseline and the observed one in this order, at the place that
  -- its path names: the layer, which was asked for and observed by both, and then the keys that lead
  -- there through objects of both sides, where a key that an object does not have stands for null. Each
  -- layer that is called missing was asked for, and one of the sides did not observe it.
  pub compare-IsReal :
      (a b : json.Value) (layers : List (List ℕ)) (r : Comparison json)
      → compare json a b layers ≡ ok r
      → All (IsFound a b layers) r.differences × All (IsMissing a b layers) r.missing_layers
  unfolding compare
  compare-IsReal a b [] r e = cc e
  compare-IsReal a b (layer ∷ layers) r e =
      let asked : List (List ℕ) = layer ∷ layers in
      let (missing, found) = layers_loop-IsFound a b asked asked (λ l m. m) in
      subst
        (λ (z : Comparison json).
          All (IsFound a b asked) z.differences × All (IsMissing a b asked) z.missing_layers)
        (ok-injective e) (found, missing)
