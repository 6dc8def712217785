-- ===== src/Rewrite/Mapping.antt =====
-- `authority` and `Mapping` of src/rewrite.rs. The `url` crate is the parameter `parse_url`.
pub mod Values
pub mod Urls
pub mod Attributes
pub mod Cookies
use fingerprint_bridge.Base.{
  ℕ, ◌+◌, ◌-◌, List, [], ◌∷◌, ◌++◌, Bool, true, false, not, ◌&&◌, ◌||◌, Option, none, some, ltb,
  leb, ◌==◌, if◌then◌else◌, length, take, drop, Result, ok, err, ◌>>=◌, ◌>>◌, ensure,
}
use fingerprint_bridge.Base.Bytes.{text, bytes_eq}
use fingerprint_bridge.Std.Ascii.{lowercase, eq_ignore_case, elem, any, all, strip_prefix, is_some}
use fingerprint_bridge.Std.Split.{split_on, break_at}
use fingerprint_bridge.Std.Trim.{trim, trim_start, trim_end, trim_start_matches, trim_end_matches}
use fingerprint_bridge.Std.Utf8.{from_utf8}

-- What the program reads of a parsed `url::Url`.
pub record Url : Type 0 where
  pub host_str : Option (List ℕ)
  pub port_or_known_default : Option ℕ

pub record Mapping : Type 0 where
  pub public : List ℕ
  pub upstream : List ℕ
  pub public_host : List ℕ
  pub upstream_host : List ℕ
  pub public_port : ℕ
  pub upstream_port : ℕ

-- `['/', '?', '#']`, which end an authority.
abbrev pub ends_authority : ℕ → Bool
ends_authority c = c == b'/' || c == b'?' || c == b'#'

-- `[' ', '\t']`
abbrev pub is_blank : ℕ → Bool
is_blank c = c == 32 || c == 9

-- The guard of `authority` on the text itself.
abbrev pub is_plain : List ℕ → Bool
is_plain s =
    all (λ c. ltb c 128) s
    && not (any (λ c. leb c 32 || c == 127) s)
    && not (any (λ c. ends_authority c || c == b'@') s)

module _ (parse_url : List ℕ → Result Url) where
  unfoldable pub authority : List ℕ → Result (List ℕ × ℕ)
  authority s = do
    ensure (is_plain s) "invalid authority"
    u ← parse_url (text "https://" ++ (s ++ text "/"))
    ensure (is_some u.host_str) "missing host"
    elim u.host_str [
      | none ↦ err "panic: unwrap of None"
      | some host ↦ elim u.port_or_known_default [
        | none ↦ err "panic: unwrap of None"
        | some port ↦ ok (lowercase host, port)
      ]
    ]

  -- `Mapping::new`
  unfoldable pub new : List ℕ → List ℕ → Result Mapping
  new public upstream = do
    (public_host, public_port) ← authority public
    (upstream_host, upstream_port) ← authority upstream
    ok (record {
      public = public;
      upstream = upstream;
      public_host = public_host;
      upstream_host = upstream_host;
      public_port = public_port;
      upstream_port = upstream_port;
    })

  -- `authority(s).is_ok_and(|(h, p)| h == host && p == port)`
  unfoldable pub is_authority : List ℕ → ℕ → List ℕ → Bool
  is_authority host port s = elim (authority s) [
    | ok (h, p) ↦ bytes_eq h host && p == port
    | err e ↦ false
  ]

  unfoldable pub is_public : Mapping → List ℕ → Bool
  is_public m s = is_authority m.public_host m.public_port s

  -- `map_url` behind a scheme: `begin` is the text before the authority.
  unfoldable pub map_authority : Mapping → Bool → List ℕ → List ℕ → List ℕ
  map_authority m response begin s =
      let (auth, rest) = break_at ends_authority s in
      let host = if response then m.upstream_host else m.public_host in
      let port = if response then m.upstream_port else m.public_port in
      if is_authority host port auth
      then begin ++ ((if response then m.public else m.upstream) ++ rest)
      else begin ++ s

  unfoldable pub map_url : Mapping → List ℕ → Bool → List ℕ
  map_url m s response = elim (strip_prefix (text "https://") s) [
    | some rest ↦ map_authority m response (text "https://") rest
    | none ↦ elim (strip_prefix (text "//") s) [
      | some rest ↦ map_authority m response (text "//") rest
      | none ↦ s
    ]
  ]

-- One attribute of a Set-Cookie value: the body of `for part in parts`, less the `;`.
unfoldable pub map_attribute : Mapping → List ℕ → List ℕ
map_attribute m part =
    let (key, rest) = break_at (λ c. c == b'=') part in
    elim rest [
      | [] ↦ part
      | eq ∷ raw ↦
          (let v = trim raw in
            let ws = length raw - length (trim_start raw) in
            let tail = length (trim_end raw) in
            if eq_ignore_case (trim key) (text "domain")
              && eq_ignore_case (trim_start_matches (λ c. c == b'.') v) m.upstream_host
            then key
              ++ (eq
                  ∷ (take ws raw
                      ++ ((if is_some (strip_prefix (text ".") v) then text "." else [])
                          ++ (m.public_host ++ drop tail raw))))
            else part)
    ]

unfoldable pub map_attributes : Mapping → List (List ℕ) → List ℕ
map_attributes m [] = []
map_attributes m (part ∷ parts) = b';' ∷ (map_attribute m part ++ map_attributes m parts)

-- The first name=value pair stays; each attribute behind a `;` is mapped.
unfoldable pub map_cookie : Mapping → List ℕ → List ℕ
map_cookie m s = let (pair, parts) = split_on b';' s in pair ++ map_attributes m parts

-- `matches!(lower, ..)` in the two directions.
unfoldable pub relevant : List ℕ → Bool → Bool
relevant lower true = bytes_eq lower (text "set-cookie") || bytes_eq lower (text "location")
relevant lower false =
    bytes_eq lower (text "host")
    || bytes_eq lower (text ":authority")
    || bytes_eq lower (text "origin")
    || bytes_eq lower (text "referer")

module _ (parse_url : List ℕ → Result Url) where
  -- The `match lower.as_slice()` of `value`, on the trimmed text.
  unfoldable pub map_trimmed : Mapping → List ℕ → List ℕ → Bool → Result (List ℕ)
  map_trimmed m lower trimmed response =
      if bytes_eq lower (text "host") || bytes_eq lower (text ":authority")
      then (do
        ensure (is_public parse_url m trimmed) "authority does not match configured B"
        ok m.upstream)
      else if bytes_eq lower (text "set-cookie")
      then ok (map_cookie m trimmed)
      else ok (map_url parse_url m trimmed response)

  unfoldable pub value : Mapping → List ℕ → List ℕ → Bool → Result (List ℕ)
  value m name bytes response =
      if relevant (lowercase name) response
      then (do
        s ← from_utf8 bytes
        let leading = length s - length (trim_start_matches is_blank s)
        let end = length (trim_end_matches is_blank s)
        ensure (leb leading end) "empty mapped header"
        mapped ← map_trimmed m (lowercase name) (drop leading (take end s)) response
        ok (take leading s ++ (mapped ++ drop end s)))
      else ok bytes
