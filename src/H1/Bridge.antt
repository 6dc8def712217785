-- ===== src/H1/Bridge.antt =====
-- `bridge` of src/h1.rs: the loop that takes requests, with what it sends on the channel (was the request
-- a HEAD?), and the loop that answers them, each as a function. Exchange puts them together.
pub mod Exchange
use fingerprint_bridge.Base.{
  ℕ, zero, suc, ◌+◌, ◌^◌, List, [], ◌∷◌, ◌++◌, Bool, true, false, not, ◌&&◌, ◌||◌, Option, none,
  some, ◌==◌, leb, if◌then◌else◌, Result, ok, err, ◌>>=◌, ◌>>◌, ensure,
}
use fingerprint_bridge.Base.Bytes.{text, bytes_eq}
use fingerprint_bridge.Std.Ascii.{is_digit, all, is_empty, is_some, strip_prefix}
use fingerprint_bridge.Std.Split.{split_on}
use fingerprint_bridge.Std.Trim.{trim_end}
use fingerprint_bridge.Std.Utf8.{from_utf8}
use fingerprint_bridge.Rewrite.Mapping.{Url, Mapping}
use fingerprint_bridge.Rewrite.Head.{h1_head}
use fingerprint_bridge.H1.Lines.{head}
use fingerprint_bridge.H1.Framing.{Body, until_eof, framing, decimal}
use fingerprint_bridge.H1.Body.{body}

-- `parts` of a request line that the bridge takes: the method.
unfoldable pub request_parts : List ℕ → List (List ℕ) → Result (List ℕ)
request_parts verb (target ∷ version ∷ []) = do
  ensure (bytes_eq version (text "HTTP/1.1")) "only HTTP/1.1 origin-form supported"
  let origin = is_some (strip_prefix (text "/") target) || bytes_eq target (text "*")
  ensure (not (bytes_eq verb (text "CONNECT")) && origin) "unsupported request target"
  ok verb
request_parts verb parts = err "only HTTP/1.1 origin-form supported"

unfoldable pub request_line : List ℕ → Result (List ℕ)
unfolding request_parts
request_line h = do
  first ← from_utf8 (split_on 10 h).0
  let (verb, parts) = split_on 32 (trim_end first)
  request_parts verb parts

abbrev pub strip_plus : List ℕ → List ℕ
strip_plus [] = []
strip_plus (c ∷ cs) = if c == 43 then cs else c ∷ cs

-- `str::parse::<u16>`, which takes a `+` in front.
unfoldable pub parse_u16 : List ℕ → Result ℕ
unfolding decimal
parse_u16 s = do
  let digits = strip_plus s
  ensure (not (is_empty digits) && all is_digit digits) "invalid digit found in string"
  ensure (leb (decimal 0 digits + 1) (2 ^ 16)) "number too large to fit in target type"
  ok (decimal 0 digits)

-- `.nth(1)` of the pieces behind the first.
unfoldable pub status_code : List (List ℕ) → Result ℕ
unfolding parse_u16
status_code [] = err "invalid status"
status_code (code ∷ rest) = parse_u16 code

unfoldable pub status : List ℕ → Result ℕ
unfolding status_code
status h = do first ← from_utf8 (split_on 10 h).0; status_code (split_on 32 first).1

module _ (parse_url : List ℕ → Result Url) (m : Mapping) where
  -- The head of a request: what it sends upstream, whether it is a HEAD, how long its body is, and what
  -- is left to read; `none` at the end of the requests.
  unfoldable pub request_head : List ℕ → Result (Option (List ℕ × Bool × Body × List ℕ))
  request_head r = do
    (h, r') ← head r
    if is_empty h then ok none else (do
      verb ← request_line h
      kind ← framing h false false
      rewritten ← h1_head parse_url m false h
      ok (some (rewritten, bytes_eq verb (text "HEAD"), kind, r')))

  -- One request, with its body.
  unfoldable pub request : List ℕ → Result (Option (List ℕ × Bool × List ℕ))
  request r = do
    found ← request_head r
    elim found [
      | none ↦ ok none
      | some (rewritten, is_head, kind, r') ↦ (do
        (copied, r'') ← body kind r'
        ok (some (rewritten ++ copied, is_head, r'')))
    ]

  -- The requests, on fuel: what is sent upstream and on the channel.
  unfoldable pub requests : ℕ → List ℕ → Result (List ℕ × List Bool)
  requests zero r = err "out of fuel"
  requests (suc fuel) r = do
    found ← request r
    elim found [
      | none ↦ ok ([], [])
      | some (sent, is_head, r') ↦ (do
        (more, heads) ← requests fuel r'
        ok (sent ++ more, is_head ∷ heads))
    ]

  -- One response: what it sends to the client, whether it is interim, how long its body is, and what
  -- is left to read.
  unfoldable pub response : Bool → List ℕ → Result (List ℕ × Bool × Body × List ℕ)
  response is_head r = do
    (h, r') ← head r
    ensure (not (is_empty h)) "upstream closed before response"
    code ← status h
    ensure (not (code == 101)) "upgrade unsupported"
    let interim = leb 100 code && leb (code + 1) 200
    kind ← framing h true (is_head || interim || code == 204 || code == 304)
    rewritten ← h1_head parse_url m true h
    (copied, r'') ← body kind r'
    ok (rewritten ++ copied, interim, kind, r'')

  -- `kind == Body::UntilEof`
  abbrev pub is_until_eof : Body → Bool
  is_until_eof until_eof = true
  is_until_eof kind = false

  -- The responses to requests, on fuel: what is sent to the client.
  unfoldable pub responses : ℕ → List Bool → List ℕ → Result (List ℕ)
  responses zero heads r = err "out of fuel"
  responses (suc fuel) [] r = ok []
  responses (suc fuel) (is_head ∷ heads) r = do
    (sent, interim, kind, r') ← response is_head r
    let again = (do more ← responses fuel (is_head ∷ heads) r'; ok (sent ++ more))
    let onward = (do more ← responses fuel heads r'; ok (sent ++ more))
    if is_until_eof kind then ok sent else if interim then again else onward
