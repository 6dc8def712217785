-- ===== src/Crypto/Registration.antt =====
-- `register` of src/crypto_x448.rs, src/crypto_ed448.rs and src/crypto_char2.rs: what the native library
-- answers is kept in a `OnceLock`.
pub mod Once
use fingerprint_bridge.Base.{ℕ, ◌+◌, Bool, ◌&&◌, Option, none, some, ◌==◌}

-- A `OnceLock<bool>`, and how often its function was called.
pub record OnceLock : Type 0 where
  pub value : Option Bool
  pub calls : ℕ

abbrev pub new : OnceLock
new = record { value = none; calls = 0 }

-- The function's answer is `answer` where it is called.
unfoldable pub get_or_init : Bool → OnceLock → Bool × OnceLock
get_or_init answer lock = elim lock.value [
  | some b ↦ (b, lock)
  | none ↦ (answer, record { value = some answer; calls = lock.calls + 1 })
]

-- `SSL_set_bridge_x448_callback(x448) == 1`, and the same for the other callback.
unfoldable pub register : ℕ → OnceLock → Bool × OnceLock
register native lock = get_or_init (native == 1) lock

-- The callback is set and available.
unfoldable pub register_ed448 : ℕ → ℕ → OnceLock → Bool × OnceLock
register_ed448 native available lock = get_or_init (native == 1 && available == 1) lock
