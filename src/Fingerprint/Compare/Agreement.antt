-- ===== src/Fingerprint/Compare/Agreement.antt =====
-- When a comparison passes.
use mathlib.Core.Path.{subst}
use mathlib.Core.Option.{some-injective}
use fingerprint_bridge.Base.{
  ℕ, zero, suc, ◌≤◌, ◌≡◌, ◌≢◌, ◌↔◌, ◌⊎◌, refl, sym, ap, ◌∙◌, inl, inr, List, [], ◌∷◌, ◌++◌, map,
  Bool, true, ◌&&◌, Option, none, some, All, Bool-cases, Option-cases, ok, ok-injective, arith,
}
use fingerprint_bridge.Std.Ascii.{is_empty}
use fingerprint_bridge.Fingerprint.Json.{Json}
use fingerprint_bridge.Fingerprint.Json.KeySet.{key_set, has, has-key_set, All-has, has-All}
use fingerprint_bridge.Fingerprint.Compare.{
  flat_map, Difference, field_or_null, unequal, walk, differences, observation, Comparison,
  in_layer, layers_loop, compare,
}

append_nil_iff {ℓ} : {A : Type ℓ} (xs ys : List A) → (xs ++ ys ≡ []) ↔ ((xs ≡ []) × (ys ≡ []))
append_nil_iff [] ys = (λ h. (refl, h), λ (_, h). h)
append_nil_iff (x ∷ xs) ys = (λ h. cc h, λ (h, _). cc h)

flat_map_nil_iff {ℓ} :
    {A : Type ℓ} (f : List ℕ → List A) (ks : List (List ℕ))
    → (flat_map f ks ≡ []) ↔ All (λ k. f k ≡ []) ks
flat_map_nil_iff f [] = (λ h. tt, λ h. refl)
flat_map_nil_iff f (k ∷ ks) =
    let (split, join) = append_nil_iff (f k) (flat_map f ks) in
    let (first, second) = flat_map_nil_iff f ks in
    (
      λ h. let (here, there) = split h in (here, first there),
      λ (here, there). join (here, second there),
    )

-- A loop that found no missing layer and no difference.
abbrev nothing {ℓ κ} : {A : Type ℓ} {B : Type κ} → List A × List B → Bool
nothing (missing, diff) = is_empty missing && is_empty diff

nothing_iff {ℓ} :
    {A B : Type ℓ} (f : A → A) (missing : List B) (found diff : List A)
    → (nothing (missing, map f found ++ diff) ≡ true)
      ↔ ((found ≡ []) × (nothing (missing, diff) ≡ true))
nothing_iff f missing [] diff = (λ h. (refl, h), λ (_, h). h)
nothing_iff f [] (d ∷ found) diff = (λ h. cc h, λ (h, _). cc h)
nothing_iff f (m ∷ missing) (d ∷ found) diff = (λ h. cc h, λ (h, _). cc h)

module _ (json : Json) where
  -- Values that agree: equal ones, and objects that agree in every field that either has, where a field
  -- that is missing stands for null.
  pub data Agree : json.Value → json.Value → Type 0 where
    leaf :
        {a b : json.Value}
        → (json.as_object a ≡ none) ⊎ (json.as_object b ≡ none)
        → json.equal a b ≡ true
        → Agree a b
    node :
        {a b : json.Value} (x y : json.Map)
        → json.as_object a ≡ some x
        → json.as_object b ≡ some y
        → ((k : List ℕ)
            → has k (json.keys x ++ json.keys y) ≡ true
            → Agree (field_or_null json x k) (field_or_null json y k))
        → Agree a b

  unequal_iff :
      (path : List ℕ) (a b : json.Value) → (unequal json path a b ≡ []) ↔ (json.equal a b ≡ true)
  unfolding unequal
  unequal_iff path a b = elim (Bool-cases (json.equal a b)) [
    | inl same ↦ rw same (λ h. refl, λ h. refl)
    | inr other ↦ rw other (λ h. cc h, λ h. cc h)
  ]

  FieldsAgree : json.Map → json.Map → Type 0
  FieldsAgree x y =
      (k : List ℕ)
      → has k (json.keys x ++ json.keys y) ≡ true
      → Agree (field_or_null json x k) (field_or_null json y k)

  Agree-fields :
      (a b : json.Value) (x y : json.Map)
      → json.as_object a ≡ some x
      → json.as_object b ≡ some y
      → Agree a b
      → FieldsAgree x y
  unfolding FieldsAgree
  Agree-fields a b x y ea eb (leaf (inl no_object) e) = cc (ea, no_object)
  Agree-fields a b x y ea eb (leaf (inr no_object) e) = cc (eb, no_object)
  Agree-fields a b x y ea eb (node x' y' ea' eb' fields) =
      subst (λ z. FieldsAgree z y) (some-injective x' x (sym ea' ∙ ea))
        (subst (λ z. FieldsAgree x' z) (some-injective y' y (sym eb' ∙ eb)) fields)

  leaf_iff :
      (path : List ℕ) (a b : json.Value)
      → (json.as_object a ≡ none) ⊎ (json.as_object b ≡ none)
      → (unequal json path a b ≡ []) ↔ Agree a b
  leaf_iff path a b no_object = (
    λ h. leaf no_object ((unequal_iff path a b).0 h),
    λ agree. (unequal_iff path a b).1 (leaf_equal a b no_object agree),
  )
    where
      leaf_equal :
          (a b : json.Value)
          → (json.as_object a ≡ none) ⊎ (json.as_object b ≡ none)
          → Agree a b
          → json.equal a b ≡ true
      leaf_equal a b h (leaf no_object e) = e
      leaf_equal a b (inl none_a) (node x y ea eb fields) = cc (ea, none_a)
      leaf_equal a b (inr none_b) (node x y ea eb fields) = cc (eb, none_b)

  field-depth :
      (v : json.Value) (m : json.Map) (k : List ℕ) (fuel : ℕ)
      → json.as_object v ≡ some m
      → json.depth v ≤ suc fuel
      → json.depth (field_or_null json m k) ≤ fuel
  unfolding field_or_null
  field-depth v m k fuel e h = elim (Option-cases (json.find m k)) [
    | inl missing ↦ rw (missing, field_or_null) (omega (arith, json.depth_null))
    | inr (w, found) ↦
        rw (found, field_or_null) (omega (arith, h, json.depth_field v w m k e found))
  ]

  -- What the differences of the fields say, where those of one field say whether it agrees.
  fields_iff :
      (x y : json.Map) (f : List ℕ → List (Difference json))
      → ((k : List ℕ) → (f k ≡ []) ↔ Agree (field_or_null json x k) (field_or_null json y k))
      → (flat_map f (key_set (json.keys x ++ json.keys y)) ≡ []) ↔ FieldsAgree x y
  unfolding FieldsAgree
  fields_iff x y f one =
      let all_keys : List (List ℕ) = json.keys x ++ json.keys y in
      let (split, join) = flat_map_nil_iff f (key_set all_keys) in
      (
        λ e k here. (one k).0 (
            All-has (λ k. f k ≡ []) (key_set all_keys) (split e) k (has-key_set k all_keys ∙ here)),
        λ fields. join (
            has-All (λ k. f k ≡ []) (key_set all_keys)
              (λ k here. (one k).1 (fields k (sym (has-key_set k all_keys) ∙ here)))),
      )

  walk_iff :
      (fuel : ℕ) (path : List ℕ) (a b : json.Value)
      → json.depth a ≤ fuel
      → (walk json fuel path a b ≡ []) ↔ Agree a b
  unfolding walk FieldsAgree
  walk_iff zero path a b h = elim (Option-cases (json.as_object a)) [
    | inl no_object ↦ leaf_iff path a b (inl no_object)
    | inr (m, e) ↦ absurd (omega (arith, h, json.depth_object a m e))
  ]
  walk_iff (suc fuel) path a b h = elim (Option-cases (json.as_object a)) [
    | inl none_a ↦ rw (none_a, walk) (leaf_iff path a b (inl none_a))
    | inr (x, ea) ↦ elim (Option-cases (json.as_object b)) [
      | inl none_b ↦ rw (ea, none_b, walk) (leaf_iff path a b (inr none_b))
      | inr (y, eb) ↦
          let (split, join) =
            fields_iff x y
              (λ k.
                walk json fuel (path ++ b'/' ∷ k) (field_or_null json x k) (field_or_null json y k))
              (λ k.
                walk_iff fuel (path ++ b'/' ∷ k) (field_or_null json x k) (field_or_null json y k)
                  (field-depth a x k fuel ea h)) in
          rw (ea, eb, walk)
            (λ e. node x y ea eb (split e), λ agree. join (Agree-fields a b x y ea eb agree))
    ]
  ]

  -- A layer that was observed on both sides, in which they agree.
  abbrev pub LayerAgrees : json.Value → json.Value → List ℕ → Type 0
  LayerAgrees a b layer =
      (x : json.Value) × (y : json.Value) × (observation json a layer ≡ some x)
      × (observation json b layer ≡ some y)
      × Agree x y

  differences_iff : (a b : json.Value) → (differences json a b ≡ []) ↔ Agree a b
  unfolding differences
  differences_iff a b = walk_iff (json.depth a) [] a b (omega arith)

  -- One round of the loop.
  layer_iff :
      (layer : List ℕ) (p q : Option json.Value) (rest : List (List ℕ) × List (Difference json))
      → (nothing {A = List ℕ} {B = Difference json} (elim p [
        | none ↦ (layer ∷ rest.0, rest.1)
        | some x ↦ elim q [
          | none ↦ (layer ∷ rest.0, rest.1)
          | some y ↦ (rest.0, map (in_layer json layer) (differences json x y) ++ rest.1)
        ]
      ])
          ≡ true)
        ↔ (((x : json.Value) × (y : json.Value) × (p ≡ some x) × (q ≡ some y) × Agree x y)
            × (nothing rest ≡ true))
  layer_iff layer none q rest = (λ h. cc h, λ ((x, y, e, _, _), _). cc e)
  layer_iff layer (some x) none rest = (λ h. cc h, λ ((x', y, _, e, _), _). cc e)
  layer_iff layer (some x) (some y) (missing, diff) =
      let (split, join) = nothing_iff (in_layer json layer) missing (differences json x y) diff in
      (
        λ h. let (same, more) = split h in ((x, y, refl, refl, (differences_iff x y).0 same), more),
        λ ((x', y', ex, ey, agree), more). join (
          (differences_iff x y).1 (
              subst (λ z. Agree z y) (some-injective x' x (sym ex))
                (subst (λ z. Agree x' z) (some-injective y' y (sym ey)) agree)),
          more,
        ),
      )

  layers_iff :
      (a b : json.Value) (layers : List (List ℕ))
      → (nothing (layers_loop json a b layers) ≡ true) ↔ All (LayerAgrees a b) layers
  unfolding layers_loop
  layers_iff a b [] = (λ h. tt, λ h. refl)
  layers_iff a b (layer ∷ layers) =
      let (split, join) =
        layer_iff layer (observation json a layer) (observation json b layer)
          (layers_loop json a b layers) in
      let (first, second) = layers_iff a b layers in
      (
        λ h. let (here, more) = split h in (here, first more),
        λ (here, more). join (here, second more),
      )

  -- A comparison of at least one layer succeeds, of none fails; and it passes exactly where every layer
  -- asked for was observed on both sides, not null and not empty, and the observations agree: they are
  -- equal, or objects that agree in each of their fields, where one that is missing stands for null.
  pub compare-pass_iff :
      (a b : json.Value) (layers : List (List ℕ))
      → ((r : Comparison json) × (compare json a b layers ≡ ok r) × (r.pass ≡ true))
        ↔ ((layers ≢ []) × All (LayerAgrees a b) layers)
  unfolding compare
  compare-pass_iff a b [] = (λ (r, e, _). cc e, λ (some_layer, _). absurd (some_layer refl))
  compare-pass_iff a b (layer ∷ layers) =
      let (split, join) = layers_iff a b (layer ∷ layers) in
      (
        λ (r, e, passes). (
          (λ none_asked. cc none_asked),
          split (ap (λ (z : Comparison json). z.pass) (ok-injective e) ∙ passes),
        ),
        λ (_, agree). (_, refl, join agree),
      )
