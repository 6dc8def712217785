-- ===== src/Fingerprint/Ja3/Injective.antt =====
-- The JA3 string determines what it is made of.
use fingerprint_bridge.Base.{
  ℕ, ◌≡◌, refl, sym, ap, ap₂, ◌∙◌, ◌↔◌, List, [], ◌∷◌, ◌++◌, map, All, All-append, true, false,
  ◌==◌, ◌≤◌, length, length-append, arith,
}
use fingerprint_bridge.Std.Ascii.{is_digit}
use fingerprint_bridge.Std.Split.{split_on, join}
use fingerprint_bridge.Std.Split.Pieces.{Free, split_on-join}
use fingerprint_bridge.Std.Format.{to_decimal}
use fingerprint_bridge.Std.Format.Decimal.{
  decimal-to_decimal, to_decimal_digits, length-to_decimal_pos,
}
use fingerprint_bridge.H1.Framing.{decimal}
use fingerprint_bridge.Fingerprint.Hello.{TlsHello}
use fingerprint_bridge.Fingerprint.Ja3.{filtered, joined, list, ja3_string}

-- A list of numbers is read back from its text: no number stands for the empty text.
numbers : List ℕ → List ℕ
numbers [] = []
numbers (c ∷ cs) =
    let (piece, more) = split_on b'-' (c ∷ cs) in decimal 0 piece ∷ map (decimal 0) more

Digits-Free :
    (sep : ℕ) (s : List ℕ) → is_digit sep ≡ false → All (λ c. is_digit c ≡ true) s → Free sep s
Digits-Free sep [] h d = tt
Digits-Free sep (c ∷ s) h d = (ground (arith, h, d.0), Digits-Free sep s h d.1)

map-decimal : (ns : List ℕ) → map (decimal 0) (map to_decimal ns) ≡ ns
map-decimal [] = refl
map-decimal (n ∷ ns) = ap₂ (λ (x : ℕ) (l : List ℕ). x ∷ l) (decimal-to_decimal n) (map-decimal ns)

numbers_split :
    (s : List ℕ)
    → 1 ≤ length s
    → numbers s ≡ decimal 0 (split_on b'-' s).0 ∷ map (decimal 0) (split_on b'-' s).1
unfolding numbers
numbers_split [] h = absurd (omega arith)
numbers_split (c ∷ cs) h = refl

decimal-All-Free :
    (sep : ℕ) (ns : List ℕ) → is_digit sep ≡ false → All (Free sep) (map to_decimal ns)
decimal-All-Free sep [] h = tt
decimal-All-Free sep (n ∷ ns) h =
    (Digits-Free sep (to_decimal n) h (to_decimal_digits n), decimal-All-Free sep ns h)

numbers-joined : (ns : List ℕ) → numbers (joined b'-' (map to_decimal ns)) ≡ ns
unfolding numbers
numbers-joined [] = refl
numbers-joined (n ∷ ns) =
    let first : List ℕ = to_decimal n in
    let more : List (List ℕ) = map to_decimal ns in
    let h : Free b'-' first = Digits-Free b'-' first refl (to_decimal_digits n) in
    numbers_split (first ++ join b'-' more)
      (omega (arith, length-append first (join b'-' more), length-to_decimal_pos n))
    ∙ ap (λ (s : List ℕ × List (List ℕ)). decimal 0 s.0 ∷ map (decimal 0) s.1)
        (split_on-join b'-' first more h (decimal-All-Free b'-' ns refl))
    ∙ map-decimal (n ∷ ns)

join-Free :
    (sep other : ℕ) (pieces : List (List ℕ))
    → (other == sep) ≡ false
    → All (Free sep) pieces
    → Free sep (join other pieces)
join-Free sep other [] h hs = tt
join-Free sep other (p ∷ ps) h hs =
    (h, All-append _ p (join other ps) hs.0 (join-Free sep other ps h hs.1))

joined-Free :
    (sep other : ℕ) (pieces : List (List ℕ))
    → (other == sep) ≡ false
    → All (Free sep) pieces
    → Free sep (joined other pieces)
joined-Free sep other [] h hs = tt
joined-Free sep other (p ∷ ps) h hs =
    All-append _ p (join other ps) hs.0 (join-Free sep other ps h hs.1)

list-Free : (ns : List ℕ) → Free b',' (list ns)
unfolding list
list-Free ns =
    joined-Free b',' b'-' (map to_decimal (filtered ns)) refl
      (decimal-All-Free b',' (filtered ns) refl)

numbers-list : (ns : List ℕ) → numbers (list ns) ≡ filtered ns
unfolding list
numbers-list ns = numbers-joined (filtered ns)

-- What the string is made of.
abbrev pub Ja3Fields : Type 0
Ja3Fields = ℕ × List (List ℕ)

abbrev pub ja3_fields : TlsHello → Ja3Fields
ja3_fields hello = (
  hello.legacy_version,
  filtered hello.ciphers
      ∷ filtered hello.extensions
      ∷ filtered hello.groups
      ∷ filtered hello.point_formats
      ∷ [],
)

read_fields : List ℕ → Ja3Fields
read_fields s = let (version, lists) = split_on b',' s in (decimal 0 version, map numbers lists)

read_fields-ja3_string : (hello : TlsHello) → read_fields (ja3_string hello) ≡ ja3_fields hello
unfolding read_fields ja3_string
read_fields-ja3_string hello =
    let pieces : List (List ℕ) =
      list hello.ciphers
      ∷ list hello.extensions
      ∷ list hello.groups
      ∷ list hello.point_formats
      ∷ [] in
    let version : List ℕ = to_decimal hello.legacy_version in
    ap (λ (s : List ℕ × List (List ℕ)). (decimal 0 s.0, map numbers s.1))
      (split_on-join b',' version pieces
        (Digits-Free b',' version refl (to_decimal_digits hello.legacy_version))
        (
          list-Free hello.ciphers,
          (
            list-Free hello.extensions,
            (list-Free hello.groups, (list-Free hello.point_formats, tt)),
          ),
        ))
    ∙ rw (decimal-to_decimal hello.legacy_version) (
        rw (numbers-list hello.ciphers) (
          rw (numbers-list hello.extensions)
            (rw (numbers-list hello.groups) (rw (numbers-list hello.point_formats) refl))))

-- Two hellos have the same JA3 string exactly where they have the same version and, with the GREASE
-- values left out, the same cipher suites, extensions, groups and point formats in the same order.
pub ja3_string-eq_iff :
    (a b : TlsHello) → (ja3_string a ≡ ja3_string b) ↔ (ja3_fields a ≡ ja3_fields b)
unfolding ja3_string list
ja3_string-eq_iff a b = (
  (λ e. sym (read_fields-ja3_string a) ∙ ap read_fields e ∙ read_fields-ja3_string b),
  (λ e. ap written e),
)
  where
    written : Ja3Fields → List ℕ
    written (version, lists) =
        to_decimal version
        ++ join b',' (map (λ (ns : List ℕ). joined b'-' (map to_decimal ns)) lists)
