-- ===== src/H1/Bridge/Exchange/Ending.antt =====
-- The loops of `bridge` never wait for each other, and come to an end.
use mathlib.Core.Path.{subst}
use fingerprint_bridge.Base.{
  ℕ, zero, suc, ◌+◌, ◌*◌, ◌≤◌, ◌<◌, List, [], ◌∷◌, Bool, true, false, not, ◌==◌, ◌≡◌, refl, sym, ap,
  ◌∙◌, leb, length, length-append, if◌then◌else◌, Option, none, some, Result, ok, err, ◌>>=◌,
  >>=-eq-ok, Result-cases, ensure, ensure-eq-ok, ok-injective, arith, ◌⊎◌, inl, inr, Bool-cases,
}
use fingerprint_bridge.Base.Bytes.{text, bytes_eq}
use fingerprint_bridge.Std.Ascii.{is_empty}
use fingerprint_bridge.Rewrite.Mapping.{Url, Mapping}
use fingerprint_bridge.Rewrite.Head.{h1_head}
use fingerprint_bridge.H1.Lines.{head}
use fingerprint_bridge.H1.Lines.Conserved.{IsCut, head-IsCut}
use fingerprint_bridge.H1.Framing.{Body, framing}
use fingerprint_bridge.H1.Body.{body}
use fingerprint_bridge.H1.Body.Conserved.{body-IsCut}
use fingerprint_bridge.H1.Bridge.{request_line, request_head, response, status, is_until_eof}
use fingerprint_bridge.H1.Bridge.Exchange.{
  Exchange, Turn, sends, copies, closes, receives, answers, Closes, all_answered, until_closed,
  request_refused, body_refused, response_refused, Turns, no_turn, and_one,
}

shorter : (h rest r : List ℕ) → IsCut r (h, rest) → is_empty h ≡ false → length rest < length r
shorter [] rest r cut some_bytes = cc
shorter (c ∷ h) rest r cut some_bytes = omega (arith, ap length cut, length-append h rest)

module _ (parse_url : List ℕ → Result Url) (m : Mapping) where
  request_head-length :
      (r rewritten r' : List ℕ) (is_head : Bool) (kind : Body)
      → request_head parse_url m r ≡ ok (some (rewritten, is_head, kind, r'))
      → length r' < length r
  unfolding request_head
  request_head-length r rewritten r' is_head kind e =
      let (x, cut, e₁) = >>=-eq-ok (head r) _ e in
      elim (Bool-cases (is_empty x.0)) [
        | inl at_end ↦
            let nothing : Result (Option (List ℕ × Bool × Body × List ℕ)) = ok none in
            let e' : nothing ≡ ok (some (rewritten, is_head, kind, r')) = rw at_end at e₁ in cc
        | inr some_bytes ↦
            let (verb, parsed, e₂) =
              >>=-eq-ok (request_line x.0)
                (λ verb. framing x.0 false false >>= (λ kind.
                  h1_head parse_url m false x.0
                  >>= (λ rewritten. ok (some (rewritten, bytes_eq verb (text "HEAD"), kind, x.1)))))
                (rw some_bytes at e₁) in
            let (length_of, framed, e₃) = >>=-eq-ok (framing x.0 false false) _ e₂ in
            let (mapped, written, e₄) = >>=-eq-ok (h1_head parse_url m false x.0) _ e₃ in
            let found : some (mapped, bytes_eq verb (text "HEAD"), length_of, x.1)
                ≡ some (rewritten, is_head, kind, r') =
              ok-injective e₄ in
            let same : x.1 ≡ r' = (cc found) in
            subst (λ (l : List ℕ). length l < length r) same
              (shorter x.0 x.1 r (head-IsCut r x cut) some_bytes)
      ]

  response-length :
      (is_head : Bool) (r : List ℕ) (x : List ℕ × Bool × Body × List ℕ)
      → response parse_url m is_head r ≡ ok x
      → length x.3 < length r
  unfolding response
  response-length is_head r x e =
      let (h, cut, e₁) = >>=-eq-ok (head r) _ e in
      let (u, some_head, e₂) =
        >>=-eq-ok (ensure (not (is_empty h.0)) "upstream closed before response") _ e₁ in
      let (code, parsed, e₃) = >>=-eq-ok (status h.0) _ e₂ in
      let (v, known, e₄) = >>=-eq-ok (ensure (not (code == 101)) "upgrade unsupported") _ e₃ in
      let (kind, framed, e₅) = >>=-eq-ok (framing h.0 true _) _ e₄ in
      let (mapped, written, e₆) = >>=-eq-ok (h1_head parse_url m true h.0) _ e₅ in
      let (copied, copy, e₇) = >>=-eq-ok (body kind h.1) _ e₆ in
      let not_empty : not (is_empty h.0) ≡ true = ensure-eq-ok _ _ some_head in
      let filled : is_empty h.0 ≡ false = ground arith in
      let less : length h.1 < length r = shorter h.0 h.1 r (head-IsCut r h cut) filled in
      let rest : length h.1 ≡ length copied.0 + length copied.1 =
        ap length (sym (body-IsCut kind h.1 copied copy)) ∙ length-append copied.0 copied.1 in
      subst (λ (y : List ℕ × Bool × Body × List ℕ). length y.3 < length r) (ok-injective e₇)
        (omega (arith, less, rest))

  abbrev count {ℓ} : {A : Type ℓ} → Option A → ℕ
  count none = 0
  count (some a) = 1

  abbrev one_if : Bool → ℕ
  one_if b = if b then 1 else 0

  -- What is left to do: bytes to read, bodies to copy, marks to receive and to answer.
  abbrev pub left : Exchange → ℕ
  left x =
      4 * length x.from_client
      + count x.pending
      + one_if x.more_requests
      + 2 * length x.channel
      + length x.from_server
      + count x.answering

  turn_less : (x y : Exchange) → Turn parse_url m x y → left y < left x
  turn_less x _ (sends rewritten is_head kind r idle is_open read space) = omega (
    arith,
    request_head-length x.from_client rewritten r is_head kind read,
    length-append x.channel (is_head ∷ []),
    ap count idle,
  )
  turn_less x _ (copies kind copied r busy copy) = omega (
    arith,
    ap length (body-IsCut kind x.from_client (copied, r) copy),
    length-append copied r,
    ap count busy,
  )
  turn_less x _ (closes idle is_open over) = omega (arith, ap one_if is_open)
  turn_less x _ (receives is_head later idle next) = omega (arith, ap length next, ap count idle)
  turn_less x _ (answers is_head sent true kind r busy read lasting) =
      omega (arith, response-length is_head x.from_server (sent, true, kind, r) read, ap count busy)
  turn_less x _ (answers is_head sent false kind r busy read lasting) =
      omega
        (arith, response-length is_head x.from_server (sent, false, kind, r) read, ap count busy)

  abbrev Goes : Exchange → Type 0
  Goes x =
      ((y : Exchange) × Turn parse_url m x y) ⊎ ((e : Result (List ℕ)) × Closes parse_url m x e)

  -- The loop of the responses, where it answers a request.
  answering-Goes : (x : Exchange) (is_head : Bool) → x.answering ≡ some is_head → Goes x
  answering-Goes x is_head busy = elim (Result-cases (response parse_url m is_head x.from_server)) [
    | inr (e, refused) ↦ inr (err e, response_refused is_head e busy refused)
    | inl ((sent, interim, kind, r), read) ↦ elim (Bool-cases (is_until_eof parse_url m kind)) [
      | inl eof ↦ inr (_, until_closed is_head sent interim kind r busy read eof)
      | inr lasting ↦ inl (_, answers is_head sent interim kind r busy read lasting)
    ]
  ]

  -- The loop of the requests, where the channel is empty.
  asking-Goes :
      (x : Exchange) (pending : Option Body)
      → x.pending ≡ pending
      → x.more_requests ≡ true
      → x.channel ≡ []
      → Goes x
  asking-Goes x (some kind) busy is_open no_marks = elim (Result-cases (body kind x.from_client)) [
    | inr (e, refused) ↦ inr (err e, body_refused kind e busy refused)
    | inl ((copied, r), copy) ↦ inl (_, copies kind copied r busy copy)
  ]
  asking-Goes x none idle is_open no_marks =
      elim (Result-cases (request_head parse_url m x.from_client)) [
        | inr (e, refused) ↦ inr (err e, request_refused e idle is_open refused)
        | inl (none, over) ↦ inl (_, closes idle is_open over)
        | inl (some (rewritten, is_head, kind, r), read) ↦
            let space : leb (length x.channel + 1) 32 ≡ true = rw no_marks refl in
            inl (_, sends rewritten is_head kind r idle is_open read space)
      ]

  goes :
      (x : Exchange) (answering : Option Bool) (channel : List Bool) (more_requests : Bool)
      → x.answering ≡ answering
      → x.channel ≡ channel
      → x.more_requests ≡ more_requests
      → Goes x
  goes x (some is_head) channel more_requests busy marks o = answering-Goes x is_head busy
  goes x none (is_head ∷ later) more_requests idle marks o =
      inl (_, receives is_head later idle marks)
  goes x none [] true idle no_marks is_open = asking-Goes x x.pending refl is_open no_marks
  goes x none [] false idle no_marks over = inr (_, all_answered over idle no_marks)

  runs_on :
      (fuel : ℕ) (x y : Exchange)
      → Turns parse_url m x y
      → left y ≤ fuel
      → (z : Exchange) × (e : Result (List ℕ)) × Turns parse_url m x z × Closes parse_url m z e
  runs_on zero x y before enough =
      elim (goes y y.answering y.channel y.more_requests refl refl refl) [
        | inr (e, ends) ↦ (y, e, before, ends)
        | inl (z, one) ↦ absurd (omega (arith, enough, turn_less y z one))
      ]
  runs_on (suc fuel) x y before enough =
      elim (goes y y.answering y.channel y.more_requests refl refl refl) [
        | inr (e, ends) ↦ (y, e, before, ends)
        | inl (z, one) ↦
            runs_on fuel x z (and_one y z before one) (omega (arith, enough, turn_less y z one))
      ]

  -- No order of turns goes on for ever: each leaves less to do, counting the bytes to read, the bodies to
  -- copy, and the marks on the channel and in answering. And the loops do not wait for each other: from
  -- the state that a turn leads to, turns lead to an end.
  pub Turn-left :
      (x y : Exchange)
      → Turn parse_url m x y
      → (left y < left x)
        × ((z : Exchange) × (e : Result (List ℕ)) × Turns parse_url m y z × Closes parse_url m z e)
  Turn-left x y one = (turn_less x y one, runs_on (left y) y y no_turn (omega arith))
