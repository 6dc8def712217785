-- ===== src/Cli/Serve.antt =====
-- The accept loop of `serve` in src/main.rs: at most `max_connections` connections at a time, each with
-- an identifier of its own. A connection is known by the value of `count` that its identifier ends in.
pub mod Limit
use fingerprint_bridge.Std.Ascii.{elem}
use fingerprint_bridge.Base.{
  ℕ, zero, suc, ◌+◌, ◌-◌, ◌≡◌, List, [], ◌∷◌, ◌++◌, ◌&&◌, Bool, true, ltb, if◌then◌else◌, ◌==◌,
  Result, ok, err, ◌>>=◌, ◌>>◌, ensure,
}

-- `permits` are the semaphore's that are free; `running` is the set of tasks.
pub record Server : Type 0 where
  pub permits : ℕ
  pub count : ℕ
  pub running : List ℕ

-- The check of the limits, and the state before the loop.
unfoldable pub begin : ℕ → ℕ → ℕ → Result Server
begin max_connections handshake_timeout connection_lifetime = do
  ensure (ltb 0 max_connections && ltb 0 handshake_timeout && ltb 0 connection_lifetime)
      "limits must be positive"
  ok (record { permits = max_connections; count = 0; running = [] })

-- `accept` and `try_acquire_owned`: without a permit the stream is dropped.
unfoldable pub accepted : Server → Server
accepted s =
    if ltb 0 s.permits
    then record {
      permits = s.permits - 1;
      count = s.count + 1;
      running = (s.count + 1) ∷ s.running;
    }
    else s

-- A task that ends, in whichever way, drops its permit.
unfoldable pub remove : ℕ → List ℕ → List ℕ
remove id [] = []
remove id (k ∷ ks) = if id == k then ks else k ∷ remove id ks

unfoldable pub ended : ℕ → Server → Server
ended id s = record s { permits = s.permits + 1; running = remove id s.running }

-- What can happen next: a connection comes, or a task that is running ends.
pub data Step : Server → Server → Type 0 where
  accept : {s : Server} → Step s (accepted s)
  finish : {s : Server} (id : ℕ) → elem id s.running ≡ true → Step s (ended id s)

-- The states that a server gets to.
pub data Reachable (max_connections : ℕ) : Server → Type 0 where
  at_start :
      {s : Server} (handshake_timeout connection_lifetime : ℕ)
      → begin max_connections handshake_timeout connection_lifetime ≡ ok s
      → Reachable max_connections s
  then_step : {s t : Server} → Reachable max_connections s → Step s t → Reachable max_connections t
