-- ===== src/Cli/Serve/Limit.antt =====
-- The invariant of the accept loop.
use mathlib.Core.Path.{subst}
use fingerprint_bridge.Base.{
  ℕ, suc, ◌+◌, ◌≤◌, ◌<◌, ◌≡◌, refl, sym, ap, ◌∙◌, inl, inr, List, [], ◌∷◌, Bool, true, ◌&&◌, ◌||◌,
  ltb, ltb→lt, ◌==◌, length, Bool-cases, ok-injective, ensure, >>=-eq-ok, ensure-eq-ok, arith,
}
use fingerprint_bridge.Std.Ascii.{elem}
use fingerprint_bridge.Cli.Serve.{
  Server, begin, accepted, remove, ended, Step, accept, finish, Reachable, at_start, then_step,
}

-- Identifiers below a bound, each below the one before it: no two are the same.
abbrev pub Falling : ℕ → List ℕ → Type 0
Falling bound [] = Unit {0}
Falling bound (id ∷ ids) = (id < bound) × Falling id ids

-- Each permit is free or with a task; the tasks' identifiers are different numbers up to `count`.
abbrev pub WithinLimit : ℕ → Server → Type 0
WithinLimit max_connections s =
    (s.permits + length s.running ≡ max_connections)
    × Falling (s.count + 1) s.running
    × (1 ≤ max_connections)

Falling-le : (low high : ℕ) (ids : List ℕ) → low ≤ high → Falling low ids → Falling high ids
Falling-le low high [] h f = tt
Falling-le low high (id ∷ ids) h (here, there) = (omega (arith, h, here), there)

remove-Falling : (id bound : ℕ) (ids : List ℕ) → Falling bound ids → Falling bound (remove id ids)
unfolding remove
remove-Falling id bound [] f = tt
remove-Falling id bound (k ∷ ids) (here, there) = elim (Bool-cases (id == k)) [
  | inl same ↦ rw same (Falling-le k bound ids (omega (arith, here)) there)
  | inr other ↦ rw other (here, remove-Falling id k ids there)
]

length-remove :
    (id : ℕ) (ids : List ℕ) → elem id ids ≡ true → suc (length (remove id ids)) ≡ length ids
unfolding remove elem
length-remove id [] h = cc h
length-remove id (k ∷ ids) h = elim (Bool-cases (id == k)) [
  | inl same ↦ rw same refl
  | inr other ↦ rw other (
      ap (λ (n : ℕ). suc n)
        (length-remove id ids (ap (λ (b : Bool). b || elem id ids) (sym other) ∙ h)))
]

Step-WithinLimit :
    (max_connections : ℕ) {s t : Server}
    → Step s t
    → WithinLimit max_connections s
    → WithinLimit max_connections t
unfolding accepted ended
Step-WithinLimit max_connections (accept {s = s}) (shared, falling, some_limit) =
    elim (Bool-cases (ltb 0 s.permits)) [
      | inl free ↦
          let one : 0 < s.permits = ltb→lt 0 s.permits free in
          rw free (omega (arith, shared, one), (omega arith, falling), some_limit)
      | inr full ↦ rw full (shared, falling, some_limit)
    ]
Step-WithinLimit max_connections (finish {s = s} id runs) (shared, falling, some_limit) = (
  omega (arith, shared, length-remove id s.running runs),
  remove-Falling id (s.count + 1) s.running falling,
  some_limit,
)

positive : (a b c : ℕ) → (ltb 0 a && ltb 0 b && ltb 0 c) ≡ true → 1 ≤ a
positive a b c h = ground arith

-- In every state that the accept loop gets to, by connections that come and tasks that end in any order,
-- the permits that are free and the tasks that run make up the limit, which is positive; so there are
-- never more tasks than that. The identifiers of the tasks are different, and none is above `count`.
pub Reachable-WithinLimit :
    (max_connections : ℕ) (s : Server) → Reachable max_connections s → WithinLimit max_connections s
unfolding begin
Reachable-WithinLimit max_connections s (at_start handshake_timeout connection_lifetime e) =
    let (_, positive_limits, e₁) =
      >>=-eq-ok
        (ensure (ltb 0 max_connections && ltb 0 handshake_timeout && ltb 0 connection_lifetime)
          "limits must be positive")
        _ e in
    subst (λ (t : Server). WithinLimit max_connections t) (ok-injective e₁)
      (
        omega arith,
        tt,
        positive max_connections handshake_timeout connection_lifetime
            (ensure-eq-ok _ _ positive_limits),
      )
Reachable-WithinLimit max_connections t (then_step {s = s} before step) =
    Step-WithinLimit max_connections step (Reachable-WithinLimit max_connections s before)
