-- ===== src/Rewrite/Head/Rendering.antt =====
-- `h1_head` on a head of the usual form.
use mathlib.Core.List.{reverse-append, reverse-reverse}
use native.Mathlib.Nat.{add_assoc, zero-add}
use fingerprint_bridge.Base.{
  ℕ, ◌+◌, ◌≡◌, refl, sym, ap, ◌∙◌, List, [], ◌∷◌, ◌++◌, Bool, true, false, ◌||◌, ensure, ◌>>◌, ◌==◌,
  if◌then◌else◌, Result, ok, err, ◌>>=◌, All, All-append, some, map, append_assoc, Bool-cases, inl,
  inr, ==_iff, arith,
}
use fingerprint_bridge.Base.Bytes.{text}
use fingerprint_bridge.Std.Ascii.{all, strip_prefix, strip_suffix, is_some, eq_ignore_case}
use fingerprint_bridge.Std.Split.{split_on, join, break_at}
use fingerprint_bridge.Std.Split.Pieces.{Free, split_on-join}
use fingerprint_bridge.Rewrite.Mapping.{Url, Mapping, value}
use fingerprint_bridge.Rewrite.Head.{
  crlf, is_token, valid_name, starts_blank, head_line, head_lines, h1_head,
}

abbrev pub Field : Type 0
Field = List ℕ × List ℕ

abbrev pub field_text : Field → List ℕ
field_text (name, bytes) = name ++ (b':' ∷ (bytes ++ crlf))

abbrev pub fields_text : List Field → List ℕ
fields_text [] = []
fields_text (f ∷ fs) = field_text f ++ fields_text fs

-- A request or status line, header fields and an empty line.
abbrev pub head_text : List ℕ → List Field → List ℕ
head_text first fs = first ++ (crlf ++ (fields_text fs ++ crlf))

abbrev pub IsField : Field → Type 0
IsField (name, bytes) = (valid_name name ≡ true) × Free 10 bytes

abbrev pub host_count : List Field → ℕ
host_count [] = 0
host_count ((name, bytes) ∷ fs) =
    (if eq_ignore_case name (text "host") then 1 else 0) + host_count fs

module _ (parse_url : List ℕ → Result Url) (m : Mapping) (response : Bool) where
  -- The fields with their values mapped, or the error of the first value that is refused.
  abbrev pub map_fields : List Field → Result (List Field)
  map_fields [] = ok []
  map_fields ((name, bytes) ∷ fs) = do
    mapped ← value parse_url m name bytes response
    rest ← map_fields fs
    ok ((name, mapped) ∷ rest)

not_token : (c x : ℕ) → is_token x ≡ false → is_token c ≡ true → (c == x) ≡ false
not_token c x no_token h = elim (Bool-cases (c == x)) [
  | inr different ↦ different
  | inl same ↦ cc ((==_iff c x).0 same)
]

strip_prefix-append : (p s : List ℕ) → strip_prefix p (p ++ s) ≡ some s
unfolding strip_prefix
strip_prefix-append [] s = refl
strip_prefix-append (c ∷ p) s =
    let same : (c == c) ≡ true = ground arith in rw same (strip_prefix-append p s)

strip_suffix-append : (s p : List ℕ) → strip_suffix p (s ++ p) ≡ some s
unfolding strip_suffix
strip_suffix-append s p =
    rw (reverse-append, strip_suffix) (rw strip_prefix-append (ap some (reverse-reverse s)))

tokens_Free :
    (x : ℕ) → is_token x ≡ false → (name : List ℕ) → all is_token name ≡ true → Free x name
unfolding all
tokens_Free x no_token [] h = tt
tokens_Free x no_token (c ∷ name) h =
    (not_token c x no_token (ground arith), tokens_Free x no_token name (ground arith))

colon_no_token : is_token b':' ≡ false
unfolding is_token
colon_no_token = refl

line_feed_no_token : is_token 10 ≡ false
unfolding is_token
line_feed_no_token = refl

break_at-name :
    (name bytes : List ℕ)
    → Free b':' name
    → break_at (λ c. c == b':') (name ++ (b':' ∷ bytes)) ≡ (name, b':' ∷ bytes)
unfolding break_at
break_at-name [] bytes h = refl
break_at-name (c ∷ name) bytes h = rw h.0 (rw (break_at-name name bytes h.1) refl)

valid_name-all : (name : List ℕ) → valid_name name ≡ true → all is_token name ≡ true
unfolding valid_name
valid_name-all [] h = cc
valid_name-all (c ∷ name) h = h

starts_blank-name : (name t : List ℕ) → valid_name name ≡ true → starts_blank (name ++ t) ≡ false
unfolding valid_name all is_token
starts_blank-name [] t h = cc
starts_blank-name (c ∷ name) t h = ground (arith, not_token c 32, not_token c 9)

no_name : ¬ (valid_name [] ≡ true)
unfolding valid_name
no_name h = cc

-- What `split` makes of one field.
abbrev field_line : Field → List ℕ
field_line (name, bytes) = (name ++ (b':' ∷ bytes)) ++ text "\r"

abbrev written_field : List ℕ → Result (List ℕ) → ℕ → Result (List ℕ × ℕ)
written_field name v host = v >>= λ mapped. ok (field_text (name, mapped), host)

abbrev written_fields : Result (List Field) → ℕ → Result (List ℕ × ℕ)
written_fields fields n = fields >>= λ mapped. ok (fields_text mapped ++ crlf, n)

abbrev cons_field : List ℕ → Result (List ℕ) → Result (List Field) → Result (List Field)
cons_field name v fields = do bytes ← v; rest ← fields; ok ((name, bytes) ∷ rest)

abbrev joined : Result (List ℕ × ℕ) → (ℕ → Result (List ℕ × ℕ)) → Result (List ℕ × ℕ)
joined line lines = do
  (written, host) ← line
  (more, total) ← lines host
  ok (written ++ more, total)

-- One field and the rest of the head, on every outcome of both.
line_step :
    (name : List ℕ) (v : Result (List ℕ)) (fields : Result (List Field))
    (lines : ℕ → Result (List ℕ × ℕ)) (host n : ℕ)
    → lines host ≡ written_fields fields n
    → joined (written_field name v host) lines ≡ written_fields (cons_field name v fields) n
line_step name (err x) fields lines host n e = refl
line_step name (ok bytes) (err x) lines host n e = rw e refl
line_step name (ok bytes) (ok rest) lines host n e = rw e (
    ap (λ (t : List ℕ). ok (t, n))
      (sym (append_assoc (field_text (name, bytes)) (fields_text rest) crlf)))

module _ (parse_url : List ℕ → Result Url) (m : Mapping) (response : Bool) where
  head_line-field :
      (name bytes : List ℕ)
      → valid_name name ≡ true
      → head_line parse_url m response (name ++ (b':' ∷ bytes))
        ≡ written_field name
            (value parse_url m name bytes response)
            (if eq_ignore_case name (text "host") then 1 else 0)
  unfolding head_line
  head_line-field name bytes h =
      rw (starts_blank-name name (b':' ∷ bytes) h) (rw broken (rw broken (rw h refl)))
    where
      broken : break_at (λ c. c == b':') (name ++ (b':' ∷ bytes)) ≡ (name, b':' ∷ bytes)
      broken =
          break_at-name name bytes (tokens_Free b':' colon_no_token name (valid_name-all name h))

  head_lines-fields :
      (fs : List Field) (hosts : ℕ)
      → All IsField fs
      → head_lines parse_url m response (map field_line fs ++ (text "\r" ∷ [] ∷ [])) hosts
        ≡ written_fields (map_fields parse_url m response fs) (hosts + host_count fs)
  unfolding head_lines
  head_lines-fields [] hosts h =
      rw (strip_suffix-append [] (text "\r"), head_lines)
        (ap (λ (n : ℕ). ok (crlf, n)) (omega arith))
  head_lines-fields (([], bytes) ∷ fs) hosts h = absurd (no_name h.0.0)
  head_lines-fields ((c ∷ name, bytes) ∷ fs) hosts h =
      rw (strip_suffix-append (c ∷ (name ++ (b':' ∷ bytes))) (text "\r"), head_lines)
        (rw (head_line-field (c ∷ name) bytes h.0.0) (
          line_step (c ∷ name) (value parse_url m (c ∷ name) bytes response)
            (map_fields parse_url m response fs)
            (λ k.
              head_lines parse_url m response (map field_line fs ++ (text "\r" ∷ [] ∷ []))
                (hosts + k))
            _ _
            (head_lines-fields fs _ h.1
              ∙ ap (written_fields (map_fields parse_url m response fs)) (add_assoc hosts _ _))))

-- The lines of a head, as `split` finds them.
lines-fields :
    (fs : List Field)
    → 10 ∷ (fields_text fs ++ crlf) ≡ join 10 (map field_line fs ++ (text "\r" ∷ [] ∷ []))
lines-fields [] = refl
lines-fields ((name, bytes) ∷ fs) = rw (← lines-fields fs) (simp append_assoc)

field_line-Free : (f : Field) → IsField f → Free 10 (field_line f)
field_line-Free (name, bytes) (valid, free) =
    All-append _ (name ++ (b':' ∷ bytes)) (text "\r")
      (All-append _ name (b':' ∷ bytes)
        (tokens_Free 10 line_feed_no_token name (valid_name-all name valid)) (refl, free))
      (refl, tt)

lines-Free :
    (fs : List Field) → All IsField fs → All (Free 10) (map field_line fs ++ (text "\r" ∷ [] ∷ []))
lines-Free [] h = ((refl, tt), (tt, tt))
lines-Free (f ∷ fs) h = (field_line-Free f h.0, lines-Free fs h.1)

split_on-head_text :
    (first : List ℕ) (fs : List Field)
    → Free 10 first
    → All IsField fs
    → split_on 10 (head_text first fs)
      ≡ (first ++ text "\r", map field_line fs ++ (text "\r" ∷ [] ∷ []))
split_on-head_text first fs hf h =
    ap (split_on 10) regroup
    ∙ split_on-join 10 (first ++ text "\r") _ (All-append _ first (text "\r") hf (refl, tt))
        (lines-Free fs h)
  where
    regroup :
        head_text first fs
        ≡ (first ++ text "\r") ++ join 10 (map field_line fs ++ (text "\r" ∷ [] ∷ []))
    regroup = rw (← lines-fields fs) (simp append_assoc)

-- A head ends with an empty line.
ending :
    (fs : List Field) → (t : List ℕ) × (crlf ++ (fields_text fs ++ crlf) ≡ t ++ text "\r\n\r\n")
ending [] = ([], refl)
ending ((name, bytes) ∷ fs) =
    let (t, e) = ending fs in
    let around : List ℕ → List ℕ = λ z. crlf ++ (name ++ (b':' ∷ (bytes ++ z))) in
    let opened : crlf ++ (fields_text ((name, bytes) ∷ fs) ++ crlf)
        ≡ around (crlf ++ (fields_text fs ++ crlf)) =
      simp append_assoc in
    let closed : around (t ++ text "\r\n\r\n") ≡ around t ++ text "\r\n\r\n" = simp append_assoc in
    (around t, opened ∙ ap around e ∙ closed)

module _ (parse_url : List ℕ → Result Url) (m : Mapping) (response : Bool) where
  -- On a head of the usual form (a first line, fields with a valid name, and an empty line), `h1_head`
  -- maps each field's value in place and writes every other byte as it was; the first value that is
  -- refused is the error, and a request must have exactly one `Host`.
  pub h1_head-head_text :
      (first : List ℕ) (fs : List Field)
      → Free 10 first
      → All IsField fs
      → h1_head parse_url m response (head_text first fs) ≡ (do
        mapped ← map_fields parse_url m response fs
        ensure (response || host_count fs == 1) "exactly one Host is required"
        ok (head_text first mapped))
  unfolding h1_head
  h1_head-head_text first fs hf h = rw (complete (ending fs)) (
      rw (split_on-head_text first fs hf h) (
        rw (head_lines-fields parse_url m response fs 0 h)
          (rw zero-add (finish (map_fields parse_url m response fs) (host_count fs)))))
    where
      complete :
          (t : List ℕ) × (crlf ++ (fields_text fs ++ crlf) ≡ t ++ text "\r\n\r\n")
          → is_some (strip_suffix (text "\r\n\r\n") (head_text first fs)) ≡ true
      complete (t, e) = rw e (
          rw (← append_assoc first t (text "\r\n\r\n"))
            (rw (strip_suffix-append (first ++ t) (text "\r\n\r\n")) refl))

      finish :
          (fields : Result (List Field)) (n : ℕ)
          → (do
            (out, hosts) ← written_fields fields n
            ensure (response || hosts == 1) "exactly one Host is required"
            ok ((first ++ text "\r") ++ (10 ∷ out)))
            ≡ (do
              mapped ← fields
              ensure (response || n == 1) "exactly one Host is required"
              ok (head_text first mapped))
      finish (err x) n = refl
      finish (ok mapped) n = rw append_assoc refl
