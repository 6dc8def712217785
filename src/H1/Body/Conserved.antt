-- ===== src/H1/Body/Conserved.antt =====
-- A body is written as it is read.
use mathlib.Core.Path.{subst}
use fingerprint_bridge.Base.{
  ℕ, zero, suc, ◌+◌, ◌-◌, ◌≡◌, refl, ap, ◌∙◌, inl, inr, List, ◌++◌, append-nil, append_assoc, not,
  ◌&&◌, ◌||◌, ◌==◌, leb, length, take-append-drop, ok, ensure, >>=-eq-ok, ok-injective, if-cases,
}
use fingerprint_bridge.Base.Bytes.{text, bytes_eq}
use fingerprint_bridge.Std.Ascii.{is_hexdigit, all, is_empty}
use fingerprint_bridge.Std.Split.{break_at}
use fingerprint_bridge.Http2.Frame.{read_exact}
use fingerprint_bridge.H1.Lines.{line, max_head}
use fingerprint_bridge.H1.Lines.Conserved.{IsCut, line-IsCut}
use fingerprint_bridge.H1.Framing.{Body, empty, chunked, until_eof}
use fingerprint_bridge.H1.Body.{exact, parse_hex, trailers, chunk_data, chunk_size, chunks, body}

-- A cut of the rest of a cut.
IsCut-append :
    (r l r' : List ℕ) (t end : List ℕ) → IsCut r (l, r') → IsCut r' (t, end) → IsCut r (l ++ t, end)
IsCut-append r l r' t end e e' = append_assoc l t end ∙ ap (λ (s : List ℕ). l ++ s) e' ∙ e

exact-IsCut : (n : ℕ) (r : List ℕ) (cut : List ℕ × List ℕ) → exact n r ≡ ok cut → IsCut r cut
unfolding exact
exact-IsCut n r cut h = elim (if-cases (leb n (length r)) h) [
  | inl (_, done) ↦ subst (IsCut r) (ok-injective done) (take-append-drop n r)
  | inr (_, failed) ↦ cc failed
]

read_exact-IsCut :
    (n : ℕ) (r : List ℕ) (cut : List ℕ × List ℕ) → read_exact n r ≡ ok cut → IsCut r cut
unfolding read_exact
read_exact-IsCut n r cut h = elim (if-cases (leb n (length r)) h) [
  | inl (_, done) ↦ subst (IsCut r) (ok-injective done) (take-append-drop n r)
  | inr (_, failed) ↦ cc failed
]

trailers-IsCut :
    (fuel total : ℕ) (r : List ℕ) (cut : List ℕ × List ℕ)
    → trailers fuel total r ≡ ok cut
    → IsCut r cut
unfolding trailers
trailers-IsCut zero total r cut h = cc h
trailers-IsCut (suc fuel) total r cut h =
    let ((l, r'), e, h₁) = >>=-eq-ok (line r (max_head - total)) _ h in
    let (_, _, h₂) = >>=-eq-ok (ensure (not (is_empty l)) "truncated trailer") _ h₁ in
    let read : IsCut r (l, r') = line-IsCut r (max_head - total) (l, r') e in
    elim (if-cases (bytes_eq l (text "\r\n")) h₂) [
      | inl (_, done) ↦ subst (IsCut r) (ok-injective done) read
      | inr (_, more) ↦
          let ((t, end), e₁, done) = >>=-eq-ok (trailers fuel (total + length l) r') _ more in
          subst (IsCut r) (ok-injective done)
            (IsCut-append r l r' t end read (trailers-IsCut fuel (total + length l) r' (t, end) e₁))
    ]

chunk_data-IsCut :
    (n : ℕ) (r : List ℕ) (cut : List ℕ × List ℕ) → chunk_data n r ≡ ok cut → IsCut r cut
unfolding chunk_data
chunk_data-IsCut n r cut h =
    let ((bytes, r'), e, h₁) = >>=-eq-ok (exact n r) _ h in
    let ((end, r''), e₁, h₂) = >>=-eq-ok (read_exact 2 r') _ h₁ in
    let (_, _, done) =
      >>=-eq-ok (ensure (bytes_eq end (text "\r\n")) "invalid chunk terminator") _ h₂ in
    subst (IsCut r) (ok-injective done) (
      IsCut-append r bytes r' end r'' (exact-IsCut n r (bytes, r') e)
        (read_exact-IsCut 2 r' (end, r'') e₁))

chunk_size-IsCut :
    (r : List ℕ) (n : ℕ) (l r' : List ℕ) → chunk_size r ≡ ok (n, l, r') → IsCut r (l, r')
unfolding chunk_size
chunk_size-IsCut r n m rest h =
    let ((l, r'), e, h₁) = >>=-eq-ok (line r 8192) _ h in
    let (_, _, h₂) = >>=-eq-ok (ensure (not (is_empty l)) "truncated chunk") _ h₁ in
    let size : List ℕ = (break_at (λ c. c == 59 || c == 13) l).0 in
    let (_, _, h₃) =
      >>=-eq-ok (ensure (not (is_empty size) && all is_hexdigit size) "invalid chunk size") _ h₂ in
    let (k, _, done) = >>=-eq-ok (parse_hex size) _ h₃ in
    subst (λ (t : ℕ × List ℕ × List ℕ). IsCut r (t.1, t.2)) (ok-injective done)
      (line-IsCut r 8192 (l, r') e)

chunks-IsCut :
    (fuel : ℕ) (r : List ℕ) (cut : List ℕ × List ℕ) → chunks fuel r ≡ ok cut → IsCut r cut
unfolding chunks
chunks-IsCut zero r cut h = cc h
chunks-IsCut (suc fuel) r cut h =
    let ((n, l, r'), e, h₁) = >>=-eq-ok (chunk_size r) _ h in
    let read : IsCut r (l, r') = chunk_size-IsCut r n l r' e in
    elim (if-cases (n == 0) h₁) [
      | inl (_, last) ↦
          let ((t, end), e₁, done) = >>=-eq-ok (trailers (length r' + 1) 0 r') _ last in
          subst (IsCut r) (ok-injective done)
            (IsCut-append r l r' t end read (trailers-IsCut (length r' + 1) 0 r' (t, end) e₁))
      | inr (_, more) ↦
          let ((bytes, r''), e₁, h₂) = >>=-eq-ok (chunk_data n r') _ more in
          let ((rest, end), e₂, done) = >>=-eq-ok (chunks fuel r'') _ h₂ in
          let rest_read : IsCut r' (bytes ++ rest, end) =
            IsCut-append r' bytes r'' rest end (chunk_data-IsCut n r' (bytes, r'') e₁)
              (chunks-IsCut fuel r'' (rest, end) e₂) in
          subst (IsCut r) (ok-injective done)
            (IsCut-append r l r' (bytes ++ rest) end read rest_read)
    ]

-- Whenever `body` returns, on a body of any kind, what it wrote and what it left to read make up what
-- it was given: no byte of the body is changed, dropped, added or moved.
pub body-IsCut :
    (kind : Body) (r : List ℕ) (cut : List ℕ × List ℕ) → body kind r ≡ ok cut → IsCut r cut
unfolding body
body-IsCut empty r cut h = subst (IsCut r) (ok-injective h) refl
body-IsCut (Body.length n) r cut h = exact-IsCut n r cut h
body-IsCut chunked r cut h = chunks-IsCut (length r + 1) r cut h
body-IsCut until_eof r cut h = subst (IsCut r) (ok-injective h) (append-nil r)
