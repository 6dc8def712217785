-- ===== src/Rewrite/Mapping/Attributes.antt =====
-- One attribute of `Set-Cookie`: what becomes of it.
use mathlib.Core.Path.{subst}
use fingerprint_bridge.Base.{
  ℕ, ◌-◌, ◌≡◌, refl, sym, ap, ap₂, ◌∙◌, ◌⊎◌, inl, inr, List, [], ◌∷◌, ◌++◌, append-nil, Bool, true,
  false, ◌&&◌, ◌==◌, ==_iff, Bool-cases, if◌then◌else◌, length, length-append, take, drop,
  take-append, drop-append, arith,
}
use fingerprint_bridge.Base.Bytes.{text}
use fingerprint_bridge.Std.Ascii.{eq_ignore_case, strip_prefix, is_some}
use fingerprint_bridge.Std.Split.{break_at, append-break_at, break_at_head}
use fingerprint_bridge.Std.Split.Broken.{None, break_at-None}
use fingerprint_bridge.Std.Trim.{trim, trim_start, trim_end, trim_start_matches}
use fingerprint_bridge.Std.Trim.Taken.{trim_start-Taken, trim_end-Taken}
use fingerprint_bridge.Rewrite.Mapping.{Mapping, map_attribute}

abbrev is_equals : ℕ → Bool
is_equals c = c == b'='

abbrev is_dot : ℕ → Bool
is_dot c = c == b'.'

-- The dot that a domain begins with, if it does.
abbrev pub lead_dot : List ℕ → List ℕ
lead_dot [] = []
lead_dot (c ∷ s) = if b'.' == c then b'.' ∷ [] else []

-- What an attribute becomes. One with no equals sign stays, and so does one whose key is not `domain`
-- (up to case and blanks around it), or whose value (with no blanks around it, no dots before it and
-- up to case) is not the upstream host. In a `domain` with the upstream host, the key, the blanks
-- before and behind the value and one dot before it are kept, and the host is the public one.
pub data Mapped (m : Mapping) (part out : List ℕ) : Type 0 where
  no_value : None is_equals part → out ≡ part → Mapped m part out
  other_key :
      (key raw : List ℕ)
      → part ≡ key ++ b'=' ∷ raw
      → None is_equals key
      → eq_ignore_case (trim key) (text "domain") ≡ false
      → out ≡ part
      → Mapped m part out
  other_host :
      (key raw : List ℕ)
      → part ≡ key ++ b'=' ∷ raw
      → None is_equals key
      → eq_ignore_case (trim_start_matches is_dot (trim raw)) m.upstream_host ≡ false
      → out ≡ part
      → Mapped m part out
  domain :
      (key raw blanks trailing : List ℕ)
      → part ≡ key ++ b'=' ∷ raw
      → None is_equals key
      → eq_ignore_case (trim key) (text "domain") ≡ true
      → eq_ignore_case (trim_start_matches is_dot (trim raw)) m.upstream_host ≡ true
      → raw ≡ blanks ++ trim_start raw
      → raw ≡ trim_end raw ++ trailing
      → out ≡ key ++ b'=' ∷ (blanks ++ (lead_dot (trim raw) ++ (m.public_host ++ trailing)))
      → Mapped m part out

take_front : (s front back : List ℕ) → front ++ back ≡ s → take (length s - length back) s ≡ front
take_front s front back e =
    let size : length s - length back ≡ length front =
      omega (arith, ap length e, length-append front back) in
    ap₂ (λ (n : ℕ) (l : List ℕ). take n l) size (sym e) ∙ take-append front back

drop_front : (s front back : List ℕ) → front ++ back ≡ s → drop (length front) s ≡ back
drop_front s front back e =
    ap (λ (l : List ℕ). drop (length front) l) (sym e) ∙ drop-append front back

lead_dot_lem :
    (s : List ℕ) → (if is_some (strip_prefix (text ".") s) then text "." else []) ≡ lead_dot s
unfolding strip_prefix
lead_dot_lem [] = refl
lead_dot_lem (c ∷ s) = elim (Bool-cases (46 == c)) [
  | inl dot ↦ rw dot refl
  | inr other ↦ rw other refl
]

and-false : (a b : Bool) → (a && b) ≡ false → (a ≡ false) ⊎ (b ≡ false)
and-false true b h = inr h
and-false false b h = inl refl

and-true : (a b : Bool) → (a && b) ≡ true → (a ≡ true) × (b ≡ true)
and-true true b h = (refl, h)
and-true false b h = cc h

module _ (m : Mapping) (part key : List ℕ) (none_of : None is_equals key) where
  abbrev names_upstream : List ℕ → Bool
  names_upstream raw =
      eq_ignore_case (trim key) (text "domain")
      && eq_ignore_case (trim_start_matches is_dot (trim raw)) m.upstream_host

  -- The text that is written for a domain that names the upstream host.
  abbrev written : List ℕ → List ℕ
  written raw =
      key
      ++ (b'='
          ∷ (take (length raw - length (trim_start raw)) raw
              ++ ((if is_some (strip_prefix (text ".") (trim raw)) then text "." else [])
                  ++ (m.public_host ++ drop (length (trim_end raw)) raw))))

  written-Mapped :
      (raw : List ℕ)
      → part ≡ key ++ b'=' ∷ raw
      → Mapped m part (if names_upstream raw then written raw else part)
  written-Mapped raw source =
      let (blanks, before) = trim_start-Taken raw in
      let (trailing, after) = trim_end-Taken raw in
      elim (Bool-cases (names_upstream raw)) [
        | inl both ↦
            (let (name, host) = and-true _ _ both in
              rw both (
                domain key raw blanks trailing source none_of name host (sym before) (sym after) (
                  rw
                    (
                      take_front raw blanks (trim_start raw) before,
                      drop_front raw (trim_end raw) trailing after,
                      lead_dot_lem (trim raw),
                    )
                    refl)))
        | inr either ↦ rw either (elim (and-false _ _ either) [
          | inl name ↦ other_key key raw source none_of name refl
          | inr host ↦ other_host key raw source none_of host refl
        ])
      ]

pub map_attribute-Mapped : (m : Mapping) (part : List ℕ) → Mapped m part (map_attribute m part)
unfolding map_attribute
map_attribute-Mapped m part = go (break_at is_equals part).1 refl
  where
    key : List ℕ
    key = (break_at is_equals part).0

    go : (rest : List ℕ) → (break_at is_equals part).1 ≡ rest → Mapped m part (map_attribute m part)
    go [] e =
        let whole : key ≡ part =
          sym (append-nil key)
          ∙ ap (λ (l : List ℕ). key ++ l) (sym e)
          ∙ append-break_at is_equals part in
        rw (e, map_attribute)
          (no_value (subst (None is_equals) whole (break_at-None is_equals part)) refl)
    go (eq ∷ raw) e =
        let sign : eq ≡ b'=' = (==_iff eq b'=').0 (break_at_head is_equals part eq raw e) in
        let source : part ≡ key ++ b'=' ∷ raw =
          sym (append-break_at is_equals part)
          ∙ ap (λ (l : List ℕ). key ++ l) (e ∙ ap (λ (c : ℕ). c ∷ raw) sign) in
        rw (e, map_attribute)
          (rw sign (written-Mapped m part key (break_at-None is_equals part) raw source))
