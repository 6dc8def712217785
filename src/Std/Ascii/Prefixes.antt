-- ===== src/Std/Ascii/Prefixes.antt =====
-- What `strip_prefix` finds.
use fingerprint_bridge.Base.{ℕ, ◌≡◌, List, [], ◌∷◌, ◌++◌, some, arith}
use fingerprint_bridge.Std.Ascii.{strip_prefix}

pub append-strip_prefix : (p s rest : List ℕ) → strip_prefix p s ≡ some rest → s ≡ p ++ rest
unfolding strip_prefix
append-strip_prefix [] s rest h = cc
append-strip_prefix (x ∷ p) [] rest h = cc
append-strip_prefix (x ∷ p) (c ∷ s) rest h = ground (arith, append-strip_prefix p s rest)
