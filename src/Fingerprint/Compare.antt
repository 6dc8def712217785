-- ===== src/Fingerprint/Compare.antt =====
-- `differences` and `compare` of src/fingerprint.rs.
pub mod Agreement
pub mod Real
use fingerprint_bridge.Base.{
  ℕ, zero, suc, List, [], ◌∷◌, ◌++◌, map, Bool, true, false, not, ◌&&◌, Option, none, some,
  if◌then◌else◌, Result, ok, err, ◌>>=◌, ◌>>◌, ensure,
}
use fingerprint_bridge.Base.Bytes.{text}
use fingerprint_bridge.Std.Ascii.{is_empty}
use fingerprint_bridge.Fingerprint.Json.{Json}
use fingerprint_bridge.Fingerprint.Json.KeySet.{key_set}

abbrev pub flat_map {ℓ} : {A : Type ℓ} → (List ℕ → List A) → List (List ℕ) → List A
flat_map f [] = []
flat_map f (k ∷ ks) = f k ++ flat_map f ks

module _ (json : Json) where
  pub record Difference : Type 0 where
    pub field : List ℕ
    pub baseline : json.Value
    pub observed : json.Value

  -- `get(k).unwrap_or(&Value::Null)`
  unfoldable pub field_or_null : json.Map → List ℕ → json.Value
  field_or_null m k = elim (json.find m k) [ none ↦ json.null | some v ↦ v ]

  unfoldable pub unequal : List ℕ → json.Value → json.Value → List Difference
  unequal path a b =
      if json.equal a b then [] else record { field = path; baseline = a; observed = b } ∷ []

  -- On fuel: an object is deeper than its fields.
  unfoldable pub walk : ℕ → List ℕ → json.Value → json.Value → List Difference
  walk zero path a b = unequal path a b
  walk (suc fuel) path a b = elim (json.as_object a) [
    | none ↦ unequal path a b
    | some x ↦ elim (json.as_object b) [
      | none ↦ unequal path a b
      | some y ↦
          flat_map (λ k. walk fuel (path ++ b'/' ∷ k) (field_or_null x k) (field_or_null y k))
            (key_set (json.keys x ++ json.keys y))
    ]
  ]

  unfoldable pub differences : json.Value → json.Value → List Difference
  differences a b = walk (json.depth a) [] a b

  unfoldable pub valid : json.Value → Bool
  valid v =
      not (json.is_null v)
      && not (elim (json.as_object v) [ none ↦ false | some x ↦ json.is_empty_map x ])
      && not (elim (json.as_array v) [ none ↦ false | some x ↦ is_empty x ])

  -- `get(layer).filter(valid)`
  unfoldable pub observation : json.Value → List ℕ → Option json.Value
  observation v layer = elim (json.get v layer) [
    | none ↦ none
    | some x ↦ if valid x then some x else none
  ]

  pub record Comparison : Type 0 where
    pub pass : Bool
    pub missing_layers : List (List ℕ)
    pub differences : List Difference
    pub scope : List (List ℕ)

  unfoldable pub in_layer : List ℕ → Difference → Difference
  in_layer layer d = record d { field = b'/' ∷ layer ++ d.field }

  -- The loop: the layers that are missing, and the differences of the others.
  unfoldable pub layers_loop :
      json.Value → json.Value → List (List ℕ) → List (List ℕ) × List Difference
  layers_loop a b [] = ([], [])
  layers_loop a b (layer ∷ layers) =
      let (missing, diff) = layers_loop a b layers in
      elim (observation a layer) [
        | none ↦ (layer ∷ missing, diff)
        | some x ↦ elim (observation b layer) [
          | none ↦ (layer ∷ missing, diff)
          | some y ↦ (missing, map (in_layer layer) (differences x y) ++ diff)
        ]
      ]

  unfoldable pub compare : json.Value → json.Value → List (List ℕ) → Result Comparison
  compare a b layers = do
    ensure (not (is_empty layers)) "no layers requested"
    let (missing, diff) = layers_loop a b layers
    ok (record {
      pass = is_empty missing && is_empty diff;
      missing_layers = missing;
      differences = diff;
      scope = layers;
    })
