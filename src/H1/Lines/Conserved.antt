-- ===== src/H1/Lines/Conserved.antt =====
-- A line and a head are a front part of the reader.
use mathlib.Core.Path.{subst}
use fingerprint_bridge.Base.{
  ℕ, zero, suc, ◌+◌, ◌-◌, ◌≡◌, refl, sym, ap, ◌∙◌, inl, inr, List, [], ◌∷◌, ◌++◌, append-nil,
  append_assoc, true, ◌==◌, leb, length, ok, ensure, >>=-eq-ok, ok-injective, ensure-eq-ok,
  if-cases,
}
use fingerprint_bridge.Base.Bytes.{text, bytes_eq}
use fingerprint_bridge.Std.Ascii.{is_empty, is_some, strip_suffix}
use fingerprint_bridge.Std.Split.{break_at, append-break_at}
use fingerprint_bridge.H1.Lines.{line_of, line, head_loop, head, max_head}

-- What is taken, and what is left, make up the reader.
abbrev pub IsCut : List ℕ → List ℕ × List ℕ → Type 0
IsCut r (l, rest) = l ++ rest ≡ r

nothing : (s : List ℕ) → is_empty s ≡ true → s ≡ []
nothing [] h = refl
nothing (c ∷ s) h = cc

line_of-IsCut :
    (limit : ℕ) (before rest : List ℕ) (cut : List ℕ × List ℕ)
    → line_of limit before rest ≡ ok cut
    → IsCut (before ++ rest) cut
unfolding line_of
line_of-IsCut limit before [] cut h =
    let (u, e₁, h₁) = >>=-eq-ok (ensure (leb (length before) limit) "line limit exceeded") _ h in
    let (v, e₂, h₂) = >>=-eq-ok (ensure (is_empty before) "truncated line") _ h₁ in
    subst (IsCut (before ++ [])) (ok-injective h₂)
      (sym (append-nil before ∙ nothing before (ensure-eq-ok _ _ e₂)))
line_of-IsCut limit before (newline ∷ after) cut h =
    let out : List ℕ = before ++ newline ∷ [] in
    let (u, e₁, h₁) = >>=-eq-ok (ensure (leb (length out) limit) "line limit exceeded") _ h in
    let (v, e₂, h₂) =
      >>=-eq-ok (ensure (is_some (strip_suffix (text "\r\n") out)) "bare LF unsupported") _ h₁ in
    subst (IsCut (before ++ newline ∷ after)) (ok-injective h₂)
      (append_assoc before (newline ∷ []) after)

-- What `line` returns and what it leaves make up what it was given.
pub line-IsCut :
    (r : List ℕ) (limit : ℕ) (cut : List ℕ × List ℕ) → line r limit ≡ ok cut → IsCut r cut
unfolding line
line-IsCut r limit cut h =
    line_of-IsCut limit (break_at (λ c. c == 10) r).0 (break_at (λ c. c == 10) r).1 cut h
    ∙ append-break_at (λ c. c == 10) r

head_loop-IsCut :
    (fuel : ℕ) (out r : List ℕ) (cut : List ℕ × List ℕ)
    → head_loop fuel out r ≡ ok cut
    → IsCut (out ++ r) cut
unfolding head_loop
head_loop-IsCut zero out r cut h = cc
head_loop-IsCut (suc fuel) out r cut h =
    let ((l, r'), e, h') = >>=-eq-ok (line r (max_head - length out)) _ h in
    let joined : (out ++ l) ++ r' ≡ out ++ r =
      append_assoc out l r'
      ∙ ap (λ (t : List ℕ). out ++ t) (line-IsCut r (max_head - length out) (l, r') e) in
    elim (if-cases (is_empty l) h') [
      | inl (none_left, ended) ↦
          let (u, _, done) = >>=-eq-ok (ensure (is_empty out) "truncated head") _ ended in
          let same : out ++ r' ≡ out ++ r =
            ap (λ (t : List ℕ). t ++ r')
              (sym (append-nil out) ∙ ap (λ (t : List ℕ). out ++ t) (sym (nothing l none_left)))
            ∙ joined in
          subst (IsCut (out ++ r)) (ok-injective done) same
      | inr (some_left, other) ↦ elim (if-cases (bytes_eq l (text "\r\n")) other) [
        | inl (last, done) ↦ subst (IsCut (out ++ r)) (ok-injective done) joined
        | inr (_, more) ↦ head_loop-IsCut fuel (out ++ l) r' cut more ∙ joined
      ]
    ]

-- Whenever `head` returns, the head that it returns and the bytes that it leaves are what it was given.
pub head-IsCut : (r : List ℕ) (cut : List ℕ × List ℕ) → head r ≡ ok cut → IsCut r cut
unfolding head
head-IsCut r cut h = head_loop-IsCut (length r + 1) [] r cut h
