-- ===== src/Base/Members.antt =====
-- Membership in a list, with the place where it is found, and lists related element by element.
use mathlib.Core.Path.{◌≡◌}
use mathlib.Core.Logic.{◌⊎◌, inl, inr}
use mathlib.Core.List.{List, [], ◌∷◌, ◌++◌, map}
use fingerprint_bridge.Base.Lists.{All}

abbrev pub Among : {A : Type 0} → A → List A → Type 0
Among x [] = ⊥
Among x (y ∷ ys) = (x ≡ y) ⊎ Among x ys

module _ {A : Type 0} where
  pub Among-left : (x : A) (xs ys : List A) → Among x xs → Among x (xs ++ ys)
  Among-left x [] ys m = absurd m
  Among-left x (y ∷ xs) ys (inl e) = inl e
  Among-left x (y ∷ xs) ys (inr m) = inr (Among-left x xs ys m)

  pub Among-right : (x : A) (xs ys : List A) → Among x ys → Among x (xs ++ ys)
  Among-right x [] ys m = m
  Among-right x (y ∷ xs) ys m = inr (Among-right x xs ys m)

abbrev pub Pairwise : {A B : Type 0} → (A → B → Type 0) → List A → List B → Type 0
Pairwise R [] [] = Unit
Pairwise R [] (y ∷ ys) = ⊥
Pairwise R (x ∷ xs) [] = ⊥
Pairwise R (x ∷ xs) (y ∷ ys) = R x y × Pairwise R xs ys

pub Pairwise-map :
    {A B : Type 0} (R : A → B → Type 0) (P : A → Type 0) (f : A → B) (xs : List A)
    → ((x : A) → P x → R x (f x))
    → All P xs
    → Pairwise R xs (map f xs)
Pairwise-map R P f [] h good = tt
Pairwise-map R P f (x ∷ xs) h good = (h x good.0, Pairwise-map R P f xs h good.1)
