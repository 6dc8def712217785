-- ===== src/Crypto/Registration/Once.antt =====
-- A callback is registered once.
use fingerprint_bridge.Base.{ℕ, ◌≡◌, refl, List, [], ◌∷◌, Bool, some, ◌==◌}
use fingerprint_bridge.Crypto.Registration.{OnceLock, new, get_or_init, register}

-- Registrations one after the other, with what the native library would answer to each.
abbrev pub registered : List ℕ → OnceLock → List Bool × OnceLock
registered [] lock = ([], lock)
registered (native ∷ more) lock =
    let (b, lock') = register native lock in
    let (bs, lock'') = registered more lock' in (b ∷ bs, lock'')

abbrev pub repeated : List ℕ → Bool → List Bool
repeated [] b = []
repeated (n ∷ ns) b = b ∷ repeated ns b

registered_again :
    (natives : List ℕ) (b : Bool) (calls : ℕ)
    → registered natives (record { value = some b; calls = calls })
      ≡ (repeated natives b, record { value = some b; calls = calls })
unfolding register get_or_init
registered_again [] b calls = refl
registered_again (native ∷ more) b calls = rw (registered_again more b calls) refl

-- However often a provider is registered, the native library is asked once, the first time, and each
-- registration reports that answer.
pub registered_once :
    (native : ℕ) (more : List ℕ)
    → registered (native ∷ more) new
      ≡ (repeated (native ∷ more) (native == 1), record { value = some (native == 1); calls = 1 })
unfolding register get_or_init
registered_once native more = rw (registered_again more (native == 1) 1) refl
