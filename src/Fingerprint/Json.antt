-- ===== src/Fingerprint/Json.antt =====
-- What src/fingerprint.rs uses of the `serde_json` crate: `Value`, and its `Map` with keys in some order.
pub mod KeySet
use fingerprint_bridge.Base.{ℕ, ◌≡◌, ◌≤◌, ◌<◌, List, [], ◌∷◌, Bool, Option, none, some}

pub record Json : Type 1 where
  pub Value : Type 0
  pub Map : Type 0
  pub null : Value
  -- A string, and an object with its fields.
  pub string : List ℕ → Value
  pub object : List (List ℕ × Value) → Value
  pub is_null : Value → Bool
  pub as_object : Value → Option Map
  pub as_array : Value → Option (List Value)
  pub get : Value → List ℕ → Option Value
  pub equal : Value → Value → Bool
  pub keys : Map → List (List ℕ)
  pub find : Map → List ℕ → Option Value
  pub is_empty_map : Map → Bool
  -- A value is a finite tree: how deep its objects are nested.
  pub depth : Value → ℕ
  pub depth_null : depth null ≡ 0
  pub depth_object : (v : Value) (m : Map) → as_object v ≡ some m → 1 ≤ depth v
  pub depth_field :
      (v w : Value) (m : Map) (k : List ℕ)
      → as_object v ≡ some m
      → find m k ≡ some w
      → depth w < depth v
