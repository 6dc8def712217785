-- ===== src/Rewrite/Mapping/Cookies.antt =====
-- `Set-Cookie`: the pieces of the value between semicolons.
use mathlib.Core.Path.{subst}
use fingerprint_bridge.Base.{
  ℕ, ◌-◌, ◌≡◌, refl, ap, List, [], ◌∷◌, ◌++◌, Bool, true, false, ◌==◌, All, All-append, All-take,
  All-drop, All-left, All-right, Pairwise, Pairwise-map, sym, map, if◌then◌else◌, length, take,
}
use fingerprint_bridge.Base.Bytes.{text}
use fingerprint_bridge.Std.Ascii.{strip_prefix, is_some}
use fingerprint_bridge.Std.Split.{split_on, join, break_at, append-break_at}
use fingerprint_bridge.Std.Split.Pieces.{Free, split_on-Free, split_on-join}
use fingerprint_bridge.Std.Trim.{trim, trim_start, trim_end}
use fingerprint_bridge.Rewrite.Mapping.{Mapping, map_attribute, map_attributes, map_cookie}
use fingerprint_bridge.Rewrite.Mapping.Attributes.{Mapped, map_attribute-Mapped}

map_attributes-join :
    (m : Mapping) (parts : List (List ℕ))
    → map_attributes m parts ≡ join b';' (map (map_attribute m) parts)
unfolding map_attributes
map_attributes-join m [] = refl
map_attributes-join m (part ∷ parts) =
    ap (λ (t : List ℕ). b';' ∷ (map_attribute m part ++ t)) (map_attributes-join m parts)

module _ (m : Mapping) (host_free : Free b';' m.public_host) where
  abbrev IsFree : List ℕ → Type 0
  IsFree = Free b';'

  if-Free : (b : Bool) (x y : List ℕ) → IsFree x → IsFree y → IsFree (if b then x else y)
  if-Free true x y hx hy = hx
  if-Free false x y hx hy = hy

  map_attribute-Free : (part : List ℕ) → IsFree part → IsFree (map_attribute m part)
  unfolding map_attribute
  map_attribute-Free part h = go (break_at (λ c. c == b'=') part).1 refl
    where
      key : List ℕ
      key = (break_at (λ c. c == b'=') part).0

      go :
          (rest : List ℕ)
          → (break_at (λ c. c == b'=') part).1 ≡ rest
          → IsFree (map_attribute m part)
      go [] e = rw (e, map_attribute) h
      go (eq ∷ raw) e =
          let whole : IsFree (key ++ (eq ∷ raw)) =
            rw (← e) (rw (append-break_at (λ c. c == b'=') part) h) in
          let raw_free = (All-right _ key (eq ∷ raw) whole).1 in
          rw (e, map_attribute)
            (if-Free _ _ part
              (All-append _ key _ (All-left _ key (eq ∷ raw) whole) (
                (All-right _ key (eq ∷ raw) whole).0,
                All-append _ (take (length raw - length (trim_start raw)) raw) _
                    (All-take _ _ raw raw_free)
                    (All-append _
                      (if is_some (strip_prefix (text ".") (trim raw)) then text "." else []) _
                      (if-Free (is_some (strip_prefix (text ".") (trim raw))) (text ".") []
                        (refl, tt) tt)
                      (All-append _ m.public_host _ host_free
                        (All-drop _ (length (trim_end raw)) raw raw_free))),
              ))
              h)

  attributes-Free :
      (parts : List (List ℕ)) → All IsFree parts → All IsFree (map (map_attribute m) parts)
  attributes-Free [] h = tt
  attributes-Free (part ∷ parts) h = (map_attribute-Free part h.0, attributes-Free parts h.1)

  pieces-map_cookie :
      (s : List ℕ)
      → split_on b';' (map_cookie m s)
        ≡ ((split_on b';' s).0, map (map_attribute m) (split_on b';' s).1)
  unfolding map_cookie
  pieces-map_cookie s =
      let (first, rest) = split_on-Free b';' s in
      rw map_attributes-join (split_on-join b';' _ _ first (attributes-Free _ rest))

  -- Where the public host holds no semicolon, a mapped `Set-Cookie` value has the same first pair, and as
  -- many attributes. In each place stands what the attribute there becomes: a `Domain` that names the
  -- upstream host, in any case, with any blanks around it and dots before it, has the public host within
  -- the same blanks, behind one dot if there was one or more; every other attribute is the same.
  pub split_on-map_cookie :
      (s : List ℕ)
      → ((split_on b';' (map_cookie m s)).0 ≡ (split_on b';' s).0)
        × Pairwise (Mapped m) (split_on b';' s).1 (split_on b';' (map_cookie m s)).1
  split_on-map_cookie s =
      let parts : List (List ℕ) = (split_on b';' s).1 in
      subst
        (λ (t : List ℕ × List (List ℕ)).
          (t.0 ≡ (split_on b';' s).0) × Pairwise (Mapped m) parts t.1)
        (sym (pieces-map_cookie s))
        (
          refl,
          Pairwise-map (Mapped m) IsFree (map_attribute m) parts
              (λ part h. map_attribute-Mapped m part) (split_on-Free b';' s).1,
        )
