-- ===== src/Rewrite/Mapping/Urls.antt =====
-- `map_url` touches the authority of each matching URL, and nothing else.
use mathlib.Core.Path.{subst}
use mathlib.Core.Bool.{true≢false}
use fingerprint_bridge.Base.{
  ℕ, ◌≡◌, ◌↔◌, refl, sym, ap, ◌∙◌, ◌⊎◌, inl, inr, ◌&&◌, List, ◌++◌, Bool, true, false, some, none,
  Result, ok, arith, ◌==◌, ==_iff, if◌then◌else◌, Bool-cases, Option-cases, Result-cases,
}
use fingerprint_bridge.Base.Bytes.{text, bytes_eq, bytes_eq_iff}
use fingerprint_bridge.Std.Ascii.{strip_prefix}
use fingerprint_bridge.Std.Ascii.Prefixes.{append-strip_prefix}
use fingerprint_bridge.Std.Split.{break_at, append-break_at}
use fingerprint_bridge.Std.Split.Broken.{
  None, StartsWith, break_at-None, break_at-StartsWith, break_at-append,
}
use fingerprint_bridge.Rewrite.Mapping.{
  Url, Mapping, ends_authority, authority, is_authority, map_authority, map_url,
}

-- The host and port that a direction looks for, and the text that it writes instead.
abbrev pub expected : Mapping → Bool → List ℕ × ℕ
expected m response = (
  if response then m.upstream_host else m.public_host,
  if response then m.upstream_port else m.public_port,
)

abbrev pub replacement : Mapping → Bool → List ℕ
replacement m response = if response then m.public else m.upstream

module _ (parse_url : List ℕ → Result Url) where
  -- An `https` URL, or one without a scheme, whose authority, up to the first `/`, `?` or `#`, has the
  -- host and port that the direction looks for.
  pub record Matching (m : Mapping) (response : Bool) (s : List ℕ) : Type 0 where
    pub begin : List ℕ
    pub auth : List ℕ
    pub rest : List ℕ
    pub scheme : (begin ≡ text "https://") ⊎ (begin ≡ text "//")
    pub source : s ≡ begin ++ (auth ++ rest)
    pub whole : None ends_authority auth
    pub ends : StartsWith ends_authority rest
    pub known : authority parse_url auth ≡ ok (expected m response)

  -- The URL with the other authority in the place of its own.
  abbrev pub replaced :
      (m : Mapping) (response : Bool) (s : List ℕ) → Matching m response s → List ℕ
  replaced m response s x = x.begin ++ (replacement m response ++ x.rest)

  is_authority_sound :
      (host : List ℕ) (port : ℕ) (s : List ℕ)
      → is_authority parse_url host port s ≡ true
      → authority parse_url s ≡ ok (host, port)
  unfolding is_authority
  is_authority_sound host port s h = elim (Result-cases (authority parse_url s)) [
    | inl ((h', p'), e) ↦
        let fits : (bytes_eq h' host && p' == port) ≡ true = rw (e, is_authority) at h in
        rw e (ground (arith, bytes_eq_iff h' host, fits))
    | inr (x, e) ↦ let no_fit : false ≡ true = rw (e, is_authority) at h in cc no_fit
  ]

  is_authority_complete :
      (host : List ℕ) (port : ℕ) (s : List ℕ)
      → authority parse_url s ≡ ok (host, port)
      → is_authority parse_url host port s ≡ true
  unfolding is_authority
  is_authority_complete host port s e =
      rw (e, is_authority) (ground (arith, bytes_eq_iff host host, ==_iff port port))

  -- The test of `map_authority` on the text behind the scheme.
  abbrev fits : Mapping → Bool → List ℕ → Bool
  fits m response t =
      is_authority parse_url (expected m response).0 (expected m response).1
        (break_at ends_authority t).0

  fits_known :
      (m : Mapping) (response : Bool) (auth rest : List ℕ)
      → None ends_authority auth
      → StartsWith ends_authority rest
      → authority parse_url auth ≡ ok (expected m response)
      → fits m response (auth ++ rest) ≡ true
  fits_known m response auth rest whole ends known =
      rw (break_at-append ends_authority auth rest whole ends)
        (is_authority_complete _ _ auth known)

  map_authority_known :
      (m : Mapping) (response : Bool) (begin auth rest : List ℕ)
      → None ends_authority auth
      → StartsWith ends_authority rest
      → authority parse_url auth ≡ ok (expected m response)
      → map_authority parse_url m response begin (auth ++ rest)
        ≡ begin ++ (replacement m response ++ rest)
  unfolding map_authority
  map_authority_known m response begin auth rest whole ends known =
      rw (fits_known m response auth rest whole ends known)
        (rw (break_at-append ends_authority auth rest whole ends) refl)

  map_url_https :
      (m : Mapping) (response : Bool) (t : List ℕ)
      → map_url parse_url m (text "https://" ++ t) response
        ≡ map_authority parse_url m response (text "https://") t
  unfolding map_url strip_prefix
  map_url_https m response t = refl

  map_url_slashes :
      (m : Mapping) (response : Bool) (t : List ℕ)
      → map_url parse_url m (text "//" ++ t) response
        ≡ map_authority parse_url m response (text "//") t
  unfolding map_url strip_prefix
  map_url_slashes m response t = refl

  map_url_Matching :
      (m : Mapping) (response : Bool) (s : List ℕ) (x : Matching m response s)
      → map_url parse_url m s response ≡ replaced m response s x
  map_url_Matching m response s x = elim x.scheme [
    | inl e ↦ behind (text "https://") e (map_url_https m response (x.auth ++ x.rest))
    | inr e ↦ behind (text "//") e (map_url_slashes m response (x.auth ++ x.rest))
  ]
    where
      behind :
          (begin : List ℕ)
          → x.begin ≡ begin
          → map_url parse_url m (begin ++ (x.auth ++ x.rest)) response
            ≡ map_authority parse_url m response begin (x.auth ++ x.rest)
          → map_url parse_url m s response ≡ replaced m response s x
      behind begin e step =
          ap (λ (t : List ℕ). map_url parse_url m t response)
            (x.source ∙ ap (λ (b : List ℕ). b ++ (x.auth ++ x.rest)) e)
          ∙ step
          ∙ map_authority_known m response begin x.auth x.rest x.whole x.ends x.known
          ∙ ap (λ (b : List ℕ). b ++ (replacement m response ++ x.rest)) (sym e)

  -- The text behind a scheme, if there is one.
  abbrev Behind : List ℕ → List ℕ → Type 0
  Behind s t =
      (strip_prefix (text "https://") s ≡ some t)
      ⊎ ((strip_prefix (text "https://") s ≡ none) × (strip_prefix (text "//") s ≡ some t))

  Behind_lem :
      (begin t : List ℕ) → (begin ≡ text "https://") ⊎ (begin ≡ text "//") → Behind (begin ++ t) t
  unfolding strip_prefix
  Behind_lem begin t (inl e) = rw e (inl refl)
  Behind_lem begin t (inr e) = rw e (inr (refl, refl))

  no_Matching :
      (m : Mapping) (response : Bool) (s : List ℕ)
      → ((t : List ℕ) → Behind s t → fits m response t ≡ false)
      → ¬ Matching m response s
  no_Matching m response s misfit x =
      let other : fits m response (x.auth ++ x.rest) ≡ false = misfit (x.auth ++ x.rest) (
        subst (λ (z : List ℕ). Behind z (x.auth ++ x.rest)) (sym x.source)
          (Behind_lem x.begin (x.auth ++ x.rest) x.scheme)) in
      absurd (true≢false (sym (fits_known m response x.auth x.rest x.whole x.ends x.known) ∙ other))

  -- The text matches, or it does not and stays.
  abbrev Decided : Mapping → Bool → List ℕ → List ℕ → Type 0
  Decided m response s out = Matching m response s ⊎ ((¬ Matching m response s) × (out ≡ s))

  map_authority-Decided :
      (m : Mapping) (response : Bool) (begin t s : List ℕ)
      → (begin ≡ text "https://") ⊎ (begin ≡ text "//")
      → s ≡ begin ++ t
      → ((u : List ℕ) → Behind s u → u ≡ t)
      → Decided m response s (map_authority parse_url m response begin t)
  unfolding map_authority
  map_authority-Decided m response begin t s scheme source only =
      elim (Bool-cases (fits m response t)) [
        | inl known ↦ inl (record {
          begin = begin;
          auth = (break_at ends_authority t).0;
          rest = (break_at ends_authority t).1;
          scheme = scheme;
          source =
              source ∙ ap (λ (u : List ℕ). begin ++ u) (sym (append-break_at ends_authority t));
          whole = break_at-None ends_authority t;
          ends = break_at-StartsWith ends_authority t;
          known = is_authority_sound _ _ _ known;
        })
        | inr other ↦
            rw (other, map_authority)
              (inr (
                no_Matching m response s
                    (λ u behind. ap (λ (v : List ℕ). fits m response v) (only u behind) ∙ other),
                sym source,
              ))
      ]

  map_url-Decided :
      (m : Mapping) (s : List ℕ) (response : Bool)
      → Decided m response s (map_url parse_url m s response)
  unfolding map_url
  map_url-Decided m s response = elim (Option-cases (strip_prefix (text "https://") s)) [
    | inr (t, e) ↦
        rw (e, map_url)
          (map_authority-Decided m response (text "https://") t s (inl refl)
            (append-strip_prefix _ s t e)
            (λ u behind. elim behind [ inl f ↦ cc | inr (f, g) ↦ cc ]))
    | inl no_scheme ↦ elim (Option-cases (strip_prefix (text "//") s)) [
      | inr (t, e) ↦
          rw (no_scheme, map_url)
            (rw e (
              map_authority-Decided m response (text "//") t s (inr refl)
                (append-strip_prefix _ s t e)
                (λ u behind. elim behind [ inl f ↦ cc | inr (f, g) ↦ cc ])))
      | inl no_slashes ↦
          rw (no_scheme, map_url)
            (rw no_slashes (
              inr (
                no_Matching m response s (λ u behind. elim behind [ inl f ↦ cc | inr (f, g) ↦ cc ]),
                refl,
              )))
    ]
  ]

  -- What `map_url` returns, in either direction. Where the text is an `https` URL, or one without a
  -- scheme, whose authority, up to the first `/`, `?` or `#`, has the host and port that the direction
  -- looks for, that authority is replaced, and the scheme and what follows the authority are kept. Where
  -- the text is no such URL, it stays as it is. Nothing else is returned.
  pub map_url_iff :
      (m : Mapping) (s : List ℕ) (response : Bool) (out : List ℕ)
      → (map_url parse_url m s response ≡ out) ↔ (
          ((x : Matching m response s) × (out ≡ replaced m response s x))
          ⊎ ((¬ Matching m response s) × (out ≡ s)))
  map_url_iff m s response out = (
    λ e. elim (map_url-Decided m s response) [
      | inl x ↦ inl (x, sym e ∙ map_url_Matching m response s x)
      | inr (unlike, kept) ↦ inr (unlike, sym e ∙ kept)
    ],
    λ h. elim h [
      | inl (x, e) ↦ map_url_Matching m response s x ∙ sym e
      | inr (unlike, e) ↦ elim (map_url-Decided m s response) [
        | inl x ↦ absurd (unlike x)
        | inr (_, kept) ↦ kept ∙ sym e
      ]
    ],
  )
