-- ===== src/H1/Body.antt =====
-- `exact` and `body` of src/h1.rs: a body as it is copied from a reader to a writer. The result is what
-- is written, and the bytes that are left to read.
pub mod Conserved
use fingerprint_bridge.Base.{
  ℕ, zero, suc, ◌+◌, ◌*◌, ◌-◌, ◌^◌, List, [], ◌∷◌, ◌++◌, Bool, not, ◌&&◌, ◌||◌, ◌==◌, leb,
  if◌then◌else◌, length, take, drop, Result, ok, err, ◌>>=◌, ◌>>◌, ensure,
}
use fingerprint_bridge.Base.Bytes.{text, bytes_eq}
use fingerprint_bridge.Std.Ascii.{is_digit, is_hexdigit, to_lower, all, is_empty}
use fingerprint_bridge.Std.Split.{break_at}
use fingerprint_bridge.Http2.Frame.{read_exact}
use fingerprint_bridge.H1.Lines.{line, max_head}
use fingerprint_bridge.H1.Framing.{Body, empty, chunked, until_eof}

abbrev pub Copied : Type 0
Copied = Result (List ℕ × List ℕ)

unfoldable pub exact : ℕ → List ℕ → Copied
exact n r = if leb n (length r) then ok (take n r, drop n r) else err "truncated body"

-- `u64::from_str_radix(size, 16)` of text that is hexadecimal digits only.
unfoldable pub hexadecimal : ℕ → List ℕ → ℕ
hexadecimal n [] = n
hexadecimal n (c ∷ cs) = hexadecimal (n * 16 + (if is_digit c then c - 48 else to_lower c - 87)) cs

unfoldable pub parse_hex : List ℕ → Result ℕ
unfolding hexadecimal
parse_hex s = do
  let n = hexadecimal 0 s
  ensure (leb (n + 1) (2 ^ 64)) "number too large to fit in target type"
  ok n

-- The lines behind the last chunk, on fuel: each takes bytes of the reader.
unfoldable pub trailers : ℕ → ℕ → List ℕ → Copied
trailers zero total r = err "out of fuel"
trailers (suc fuel) total r = do
  (l, r') ← line r (max_head - total)
  ensure (not (is_empty l)) "truncated trailer"
  let more = (do (t, end) ← trailers fuel (total + length l) r'; ok (l ++ t, end))
  if bytes_eq l (text "\r\n") then ok (l, r') else more

-- The data of a chunk of `n` bytes with the line end behind it.
unfoldable pub chunk_data : ℕ → List ℕ → Copied
chunk_data n r = do
  (data_bytes, r') ← exact n r
  (end, r'') ← read_exact 2 r'
  ensure (bytes_eq end (text "\r\n")) "invalid chunk terminator"
  ok (data_bytes ++ end, r'')

-- The line in front of a chunk, and the chunk's size.
unfoldable pub chunk_size : List ℕ → Result (ℕ × List ℕ × List ℕ)
chunk_size r = do
  (l, r') ← line r 8192
  ensure (not (is_empty l)) "truncated chunk"
  let size = (break_at (λ c. c == 59 || c == 13) l).0
  ensure (not (is_empty size) && all is_hexdigit size) "invalid chunk size"
  n ← parse_hex size
  ok (n, l, r')

-- `Body::Chunked`, on fuel: a chunk takes bytes of the reader.
unfoldable pub chunks : ℕ → List ℕ → Copied
chunks zero r = err "out of fuel"
chunks (suc fuel) r = do
  (n, l, r') ← chunk_size r
  let last = (do (t, end) ← trailers (length r' + 1) 0 r'; ok (l ++ t, end))
  let more = (do
    (bytes, r'') ← chunk_data n r'
    (rest, end) ← chunks fuel r''
    ok (l ++ (bytes ++ rest), end))
  if n == 0 then last else more

unfoldable pub body : Body → List ℕ → Copied
body empty r = ok ([], r)
body (Body.length n) r = exact n r
body until_eof r = ok (r, [])
body chunked r = chunks (length r + 1) r
