-- ===== src/Rewrite/Head.antt =====
-- `h1_head` and `header_names` of src/rewrite.rs.
pub mod Rendering
use fingerprint_bridge.Base.{
  ℕ, ◌+◌, List, [], ◌∷◌, ◌++◌, Bool, true, false, not, ◌&&◌, ◌||◌, Option, none, some, ◌==◌,
  if◌then◌else◌, Result, ok, err, ◌>>=◌, ◌>>◌, ensure,
}
use fingerprint_bridge.Base.Bytes.{text, bytes_eq}
use fingerprint_bridge.Std.Ascii.{
  is_alphanumeric, elem, all, is_empty, strip_suffix, is_some, eq_ignore_case,
}
use fingerprint_bridge.Std.Split.{split_on, break_at}
use fingerprint_bridge.Rewrite.Mapping.{Url, Mapping, is_blank, value}

abbrev pub crlf : List ℕ
crlf = text "\r\n"

-- `c.is_ascii_alphanumeric() || b"!#$%&'*+-.^_`|~".contains(c)`
unfoldable pub is_token : ℕ → Bool
unfolding elem
is_token c = is_alphanumeric c || elem c (text "!#$%&'*+-.^_`|~")

unfoldable pub valid_name : List ℕ → Bool
unfolding all is_token
valid_name name = not (is_empty name) && all is_token name

-- `line.starts_with(b" ") || line.starts_with(b"\t")`
abbrev pub starts_blank : List ℕ → Bool
starts_blank [] = false
starts_blank (c ∷ cs) = is_blank c

module _ (parse_url : List ℕ → Result Url) (m : Mapping) (response : Bool) where
  -- The body of the loop on a line that is neither empty nor `\r`, less the `\r`: what it writes, and
  -- how many `Host` headers it saw.
  unfoldable pub head_line : List ℕ → Result (List ℕ × ℕ)
  head_line line = do
    ensure (not (starts_blank line)) "obs-fold unsupported"
    let (name, rest) = break_at (λ c. c == b':') line
    elim rest [
      | [] ↦ err "invalid header"
      | colon ∷ bytes ↦ (do
        ensure (valid_name name) "invalid header name"
        mapped ← value parse_url m name bytes response
        ok (name ++ (colon ∷ (mapped ++ crlf)), if eq_ignore_case name (text "host") then 1 else 0))
    ]

  -- `for line in lines`: what it writes, and the count of `Host` headers.
  unfoldable pub head_lines : List (List ℕ) → ℕ → Result (List ℕ × ℕ)
  head_lines [] hosts = ok ([], hosts)
  head_lines (line ∷ lines) hosts =
      if is_empty line then ok ([], hosts) else elim (strip_suffix (text "\r") line) [
        | none ↦ err "bare LF"
        | some stripped ↦ if is_empty stripped then ok (crlf, hosts) else do
          (written, host) ← head_line stripped
          (more, total) ← head_lines lines (hosts + host)
          ok (written ++ more, total)
      ]

  unfoldable pub h1_head : List ℕ → Result (List ℕ)
  h1_head head = do
    ensure (is_some (strip_suffix (text "\r\n\r\n") head)) "invalid HTTP head"
    let (first, lines) = split_on 10 head
    (out, hosts) ← head_lines lines 0
    ensure (response || hosts == 1) "exactly one Host is required"
    ok (first ++ (10 ∷ out))

-- `header_names`: the text before the first colon of each line but the first, where there is one.
-- The bytes are kept as they are, where the source replaces what is not UTF-8.
names_of : List (List ℕ) → List (List ℕ)
names_of [] = []
names_of (line ∷ lines) =
    let (name, rest) = break_at (λ c. c == b':') line in
    let names = names_of lines in if is_empty rest then names else name ∷ names

unfoldable pub header_names : List ℕ → List (List ℕ)
unfolding names_of
header_names head = names_of (split_on 10 head).1
