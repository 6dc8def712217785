-- ===== src/Crypto/Ed448.antt =====
-- `verify` and `verify_callback` of src/crypto_ed448.rs, over the `crrl` crate.
pub mod Accepts
use fingerprint_bridge.Base.{
  ℕ, List, Bool, true, false, not, ◌&&◌, ◌||◌, Option, none, some, ◌==◌, leb, if◌then◌else◌, length,
}

-- `isneutral` and `is_in_subgroup` answer words of which 0 is false.
pub record Ed448Crate : Type 1 where
  pub PublicKey : Type 0
  pub decode : List ℕ → Option PublicKey
  pub isneutral : PublicKey → ℕ
  pub is_in_subgroup : PublicKey → ℕ
  pub verify_raw : PublicKey → List ℕ → List ℕ → Bool

module _ (crate : Ed448Crate) where
  unfoldable pub verify_key : crate.PublicKey → List ℕ → List ℕ → Bool
  verify_key key message signature =
      if not (crate.isneutral key == 0) || crate.is_in_subgroup key == 0
      then false
      else crate.verify_raw key signature message

  unfoldable pub verify : List ℕ → List ℕ → List ℕ → Bool
  verify public_key message signature =
      if not (length public_key == 57) || not (length signature == 114)
      then false
      else elim (crate.decode public_key) [
        | none ↦ false
        | some key ↦ verify_key key message signature
      ]

  -- The pointers are `none` where they are null, and otherwise the bytes behind them: 57, 114 and
  -- `message_len`. `isize_max` is the platform's.
  unfoldable pub verify_callback : ℕ → Option (List ℕ) → Option (List ℕ) → ℕ → Option (List ℕ) → ℕ
  verify_callback isize_max none message message_len signature = 0
  verify_callback isize_max (some key) message message_len none = 0
  verify_callback isize_max (some key) none message_len (some signature) =
      if not (leb message_len isize_max) || not (message_len == 0)
      then 0
      else if verify key List.[] signature
      then 1
      else 0
  verify_callback isize_max (some key) (some message) message_len (some signature) =
      if leb message_len isize_max then (if verify key message signature then 1 else 0) else 0
