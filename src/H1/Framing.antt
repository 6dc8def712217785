-- ===== src/H1/Framing.antt =====
-- `Body` and `framing` of src/h1.rs: how long a message's body is.
use fingerprint_bridge.Base.{
  ℕ, ◌+◌, ◌*◌, ◌-◌, ◌^◌, List, [], ◌∷◌, Bool, not, ◌&&◌, ◌||◌, Option, none, some, ◌==◌, leb,
  if◌then◌else◌, Result, ok, err, ◌>>=◌, ◌>>◌, ensure,
}
use fingerprint_bridge.Base.Bytes.{text, bytes_eq}
use fingerprint_bridge.Std.Ascii.{is_digit, all, is_empty, is_some, eq_ignore_case, lowercase}
use fingerprint_bridge.Std.Split.{split_on, break_at}
use fingerprint_bridge.Std.Trim.{trim}
use fingerprint_bridge.Std.Utf8.{from_utf8}

pub data Body : Type 0 where
  empty : Body
  length : ℕ → Body
  chunked : Body
  until_eof : Body

-- `str::parse::<u64>` of text that is digits only.
unfoldable pub decimal : ℕ → List ℕ → ℕ
decimal n [] = n
decimal n (c ∷ cs) = decimal (n * 10 + (c - 48)) cs

unfoldable pub parse_u64 : List ℕ → Result ℕ
unfolding decimal
parse_u64 s = do
  let n = decimal 0 s
  ensure (leb (n + 1) (2 ^ 64)) "number too large to fit in target type"
  ok n

-- What the loop has found: the `Content-Length` and the `Transfer-Encoding`.
abbrev pub Found : Type 0
Found = Option ℕ × Option (List ℕ)

-- The names that matter to the framing.
abbrev pub is_framing : List ℕ → Bool
is_framing name =
    eq_ignore_case name (text "content-length")
    || eq_ignore_case name (text "transfer-encoding")
    || eq_ignore_case name (text "upgrade")

-- A header of such a name: `value` is trimmed.
unfoldable pub framing_field : List ℕ → List ℕ → Found → Result Found
framing_field name value (len, te) =
    if eq_ignore_case name (text "content-length")
    then (do
      ensure (not (is_some len) && not (is_empty value) && all is_digit value)
          "ambiguous Content-Length"
      n ← parse_u64 value
      ok (some n, te))
    else if eq_ignore_case name (text "transfer-encoding")
    then (do
      ensure (not (is_some te)) "duplicate Transfer-Encoding"
      ok (len, some (lowercase value)))
    else err "HTTP upgrade is unsupported"

-- The body of the loop.
unfoldable pub framing_line : List ℕ → Found → Result Found
framing_line line found =
    let (name, rest) = break_at (λ c. c == 58) line in
    elim rest [
      | [] ↦ ok found
      | colon ∷ bytes ↦
          if is_framing name
          then (do value ← from_utf8 bytes; framing_field name (trim value) found)
          else ok found
    ]

unfoldable pub framing_lines : List (List ℕ) → Found → Result Found
framing_lines [] found = ok found
framing_lines (line ∷ lines) found = do after ← framing_line line found; framing_lines lines after

-- The body that the headers found stand for.
unfoldable pub body_of : Found → Bool → Bool → Result Body
body_of (len, te) response no_body = do
  ensure (not (is_some len) || not (is_some te)) "CL+TE is rejected"
  if no_body then ok empty else (elim te [
    | some coding ↦ (do
      ensure (bytes_eq coding (text "chunked")) "unsupported transfer coding"
      ok chunked)
    | none ↦ elim len [
      | some n ↦ ok (Body.length n)
      | none ↦ if response then ok until_eof else ok empty
    ]
  ])

unfoldable pub framing : List ℕ → Bool → Bool → Result Body
framing head response no_body = do
  let (first, lines) = split_on 10 head
  found ← framing_lines lines (none, none)
  body_of found response no_body
