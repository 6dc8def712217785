-- ===== src/H1/Lines.antt =====
-- `line` and `head` of src/h1.rs. A reader is the list of the bytes still to come, with the end of the
-- stream behind the last one; how they are buffered does not matter to `line`.
pub mod Conserved
use fingerprint_bridge.Base.{
  ℕ, zero, suc, ◌+◌, ◌-◌, List, [], ◌∷◌, ◌++◌, Option, none, some, ◌==◌, leb, if◌then◌else◌, length,
  Result, ok, err, ◌>>=◌, ◌>>◌, ensure,
}
use fingerprint_bridge.Base.Bytes.{text, bytes_eq}
use fingerprint_bridge.Std.Ascii.{is_empty, is_some, strip_suffix}
use fingerprint_bridge.Std.Split.{break_at}

abbrev pub max_head : ℕ
max_head = 65536

-- The line that is read, from the bytes before the next LF and the rest.
unfoldable pub line_of : ℕ → List ℕ → List ℕ → Result (List ℕ × List ℕ)
line_of limit before [] = do
  ensure (leb (length before) limit) "line limit exceeded"
  ensure (is_empty before) "truncated line"
  ok ([], [])
line_of limit before (newline ∷ after) = do
  let out = before ++ newline ∷ []
  ensure (leb (length out) limit) "line limit exceeded"
  ensure (is_some (strip_suffix (text "\r\n") out)) "bare LF unsupported"
  ok (out, after)

-- The bytes up to and with the next LF, and the bytes behind; nothing at the end of the stream.
unfoldable pub line : List ℕ → ℕ → Result (List ℕ × List ℕ)
line r limit = let (before, rest) = break_at (λ c. c == 10) r in line_of limit before rest

-- The loop of `head` on fuel, with the bytes taken so far: a line takes bytes of the reader.
unfoldable pub head_loop : ℕ → List ℕ → List ℕ → Result (List ℕ × List ℕ)
head_loop zero out r = err "out of fuel"
head_loop (suc fuel) out r = do
  (l, r') ← line r (max_head - length out)
  let rest = head_loop fuel (out ++ l) r'
  if is_empty l
      then (do ensure (is_empty out) "truncated head"; ok (out, r'))
      else if bytes_eq l (text "\r\n")
      then ok (out ++ l, r')
      else rest

unfoldable pub head : List ℕ → Result (List ℕ × List ℕ)
head r = head_loop (length r + 1) [] r
