-- ===== src/H1/Bridge/Exchange/Keeping.antt =====
-- Each turn of the loops does what `requests` and `responses` do next.
use fingerprint_bridge.H1.Bridge.Exchange.Loops.{
  some≢none, requests_more, responses_interim, responses_final,
}
use mathlib.Core.Path.{subst}
use mathlib.Core.Bool.{true≢false}
use native.Mathlib.Nat.{zero-add}
use fingerprint_bridge.Base.{
  ℕ, suc, ◌+◌, ◌≤◌, List, [], ◌∷◌, ◌++◌, append_assoc, Bool, true, false, ◌≡◌, refl, sym, ap, ap₂,
  ◌∙◌, leb→le, length, length-append, Option, none, some, Result, ok, arith,
}
use fingerprint_bridge.Rewrite.Mapping.{Url, Mapping}
use fingerprint_bridge.H1.Framing.{Body}
use fingerprint_bridge.H1.Body.{body}
use fingerprint_bridge.H1.Bridge.{request_head, requests, responses}
use fingerprint_bridge.H1.Bridge.Exchange.{
  Exchange, begin, Turn, sends, copies, closes, receives, answers, Turns, no_turn, and_one,
}

-- The request that is being answered, as a list.
abbrev pub current : Option Bool → List Bool
current none = []
current (some is_head) = is_head ∷ []

module _ (parse_url : List ℕ → Result Url) (m : Mapping) where
  -- The requests that were read from `r` on: their marks, the rewritten heads and the bodies in their
  -- order, the body that is still to be read, and what is left behind.
  pub data Asked (r : List ℕ) : List Bool → List ℕ → Option Body → List ℕ → Type 0 where
    not_yet : Asked r [] [] none r
    head_read :
        (hs : List Bool) (sent now now' rewritten : List ℕ) (is_head : Bool) (kind : Body)
        → Asked r hs sent none now
        → request_head parse_url m now ≡ ok (some (rewritten, is_head, kind, now'))
        → Asked r (hs ++ is_head ∷ []) (sent ++ rewritten) (some kind) now'
    body_read :
        (hs : List Bool) (sent now now' copied : List ℕ) (kind : Body)
        → Asked r hs sent (some kind) now
        → body kind now ≡ ok (copied, now')
        → Asked r hs (sent ++ copied) none now'

  module _ (from_client from_server : List ℕ) where
    -- What the loops have done is what the functions do first: `requests` goes on, behind the `k` requests
    -- with the marks `heads`, with what is left to read, and so does `responses` behind the requests in
    -- `answered`. The marks are answered in the order in which they were sent.
    pub record IsSerial (x : Exchange) : Type 0 where
      pub k : ℕ
      pub j : ℕ
      pub heads : List Bool
      pub answered : List Bool
      pub asked : Asked from_client heads x.upstream x.pending x.from_client
      pub in_order : heads ≡ answered ++ (current x.answering ++ x.channel)
      pub room : length x.channel ≤ 32
      pub closed :
          x.more_requests ≡ false
          → (x.pending ≡ none) × (request_head parse_url m x.from_client ≡ ok none)
      pub asks :
          x.pending ≡ none
          → (fuel : ℕ) (more : List ℕ) (hs : List Bool)
          → requests parse_url m fuel x.from_client ≡ ok (more, hs)
          → requests parse_url m (k + fuel) from_client ≡ ok (x.upstream ++ more, heads ++ hs)
      pub asks_on :
          (kind : Body)
          → x.pending ≡ some kind
          → (copied r : List ℕ) (fuel : ℕ) (more : List ℕ) (hs : List Bool)
          → body kind x.from_client ≡ ok (copied, r)
          → requests parse_url m fuel r ≡ ok (more, hs)
          → requests parse_url m (k + fuel) from_client
            ≡ ok (x.upstream ++ (copied ++ more), heads ++ hs)
      pub replies :
          (fuel : ℕ) (hs : List Bool) (more : List ℕ)
          → responses parse_url m fuel (current x.answering ++ hs) x.from_server ≡ ok more
          → responses parse_url m (j + fuel) (answered ++ (current x.answering ++ hs)) from_server
            ≡ ok (x.downstream ++ more)

    begin-IsSerial : IsSerial (begin from_client from_server)
    begin-IsSerial = record {
      k = 0;
      j = 0;
      heads = [];
      answered = [];
      asked = not_yet;
      in_order = refl;
      room = omega arith;
      closed = λ e. absurd (true≢false e);
      asks = λ e fuel more hs h. rw zero-add h;
      asks_on = λ kind e. cc;
      replies = λ fuel hs more h. rw zero-add h;
    }

    -- A response in a state that answers is the next thing that `responses` does.
    answers_on :
        (x : Exchange) (is_head : Bool) (sent r : List ℕ) (h : IsSerial x)
        → x.answering ≡ some is_head
        → (fuel : ℕ) (hs : List Bool) (more : List ℕ)
        → responses parse_url m (suc fuel) (is_head ∷ hs) x.from_server ≡ ok (sent ++ more)
        → responses parse_url m (suc h.j + fuel) (h.answered ++ (is_head ∷ hs)) from_server
          ≡ ok ((x.downstream ++ sent) ++ more)
    answers_on x is_head sent r h busy fuel hs more rest =
        let rounds : suc h.j + fuel ≡ h.j + suc fuel = omega arith in
        ap₂
          (λ (n : ℕ) (a : Option Bool).
            responses parse_url m n (h.answered ++ (current a ++ hs)) from_server)
          rounds (sym busy)
        ∙ h.replies (suc fuel) hs (sent ++ more) (
            ap
              (λ (a : Option Bool).
                responses parse_url m (suc fuel) (current a ++ hs) x.from_server)
              busy
            ∙ rest)
        ∙ ap ok (sym (append_assoc x.downstream sent more))

    Turn-IsSerial : (x y : Exchange) → Turn parse_url m x y → IsSerial x → IsSerial y
    Turn-IsSerial x _ (sends rewritten is_head kind r idle is_open read space) h = record {
      k = suc h.k;
      j = h.j;
      heads = h.heads ++ is_head ∷ [];
      answered = h.answered;
      asked =
          head_read h.heads x.upstream x.from_client r rewritten is_head kind
            (subst (λ (p : Option Body). Asked from_client h.heads x.upstream p x.from_client) idle
              h.asked)
            read;
      in_order =
          ap (λ (l : List Bool). l ++ is_head ∷ []) h.in_order
          ∙ append_assoc h.answered (current x.answering ++ x.channel) (is_head ∷ [])
          ∙ ap (λ (l : List Bool). h.answered ++ l)
              (append_assoc (current x.answering) x.channel (is_head ∷ []));
      room = omega (arith, length-append x.channel (is_head ∷ []), leb→le _ _ space);
      closed = λ e. absurd (true≢false (sym is_open ∙ e));
      asks = λ e. cc;
      asks_on = λ kind' e copied r' fuel more hs copy rest.
          let same : kind' ≡ kind = cc in
          let copy' : body kind r ≡ ok (copied, r') =
            ap (λ (b : Body). body b r) (sym same) ∙ copy in
          let rounds : suc h.k + fuel ≡ h.k + suc fuel = omega arith in
          ap (λ (n : ℕ). requests parse_url m n from_client) rounds
          ∙ h.asks idle (suc fuel) ((rewritten ++ copied) ++ more) (is_head ∷ hs) (
              requests_more parse_url m fuel x.from_client r r' rewritten copied more is_head kind
                hs read copy' rest)
          ∙ ap₂ (λ (a : List ℕ) (b : List Bool). ok (a, b))
              (ap (λ (l : List ℕ). x.upstream ++ l) (append_assoc rewritten copied more)
                ∙ sym (append_assoc x.upstream rewritten (copied ++ more)))
              (sym (append_assoc h.heads (is_head ∷ []) hs));
      replies = h.replies;
    }
    Turn-IsSerial x _ (copies kind copied r busy copy) h = record {
      k = h.k;
      j = h.j;
      heads = h.heads;
      answered = h.answered;
      asked =
          body_read h.heads x.upstream x.from_client r copied kind
            (subst (λ (p : Option Body). Asked from_client h.heads x.upstream p x.from_client) busy
              h.asked)
            copy;
      in_order = h.in_order;
      room = h.room;
      closed = λ e.
          let idle : x.pending ≡ none = (h.closed e).0 in
          absurd (some≢none parse_url m (sym busy ∙ idle));
      asks = λ e fuel more hs rest.
          h.asks_on kind busy copied r fuel more hs copy rest
          ∙ ap (λ (l : List ℕ). ok (l, h.heads ++ hs)) (sym (append_assoc x.upstream copied more));
      asks_on = λ kind' e. cc;
      replies = h.replies;
    }
    Turn-IsSerial x _ (closes idle is_open over) h = record {
      k = h.k;
      j = h.j;
      heads = h.heads;
      answered = h.answered;
      asked = h.asked;
      in_order = h.in_order;
      room = h.room;
      closed = λ e. (idle, over);
      asks = h.asks;
      asks_on = h.asks_on;
      replies = h.replies;
    }
    Turn-IsSerial x _ (receives is_head later idle next) h = record {
      k = h.k;
      j = h.j;
      heads = h.heads;
      answered = h.answered;
      asked = h.asked;
      in_order =
          h.in_order
          ∙ ap₂ (λ (a : Option Bool) (c : List Bool). h.answered ++ (current a ++ c)) idle next;
      room = omega (arith, ap length next, h.room);
      closed = h.closed;
      asks = h.asks;
      asks_on = h.asks_on;
      replies = λ fuel hs more rest.
          ap
            (λ (a : Option Bool).
              responses parse_url m (h.j + fuel) (h.answered ++ (current a ++ (is_head ∷ hs)))
                from_server)
            (sym idle)
          ∙ h.replies fuel (is_head ∷ hs) more (
              ap
                (λ (a : Option Bool).
                  responses parse_url m fuel (current a ++ (is_head ∷ hs)) x.from_server)
                idle
              ∙ rest);
    }
    Turn-IsSerial x _ (answers is_head sent true kind r busy read lasting) h = record {
      k = h.k;
      j = suc h.j;
      heads = h.heads;
      answered = h.answered;
      asked = h.asked;
      in_order = h.in_order ∙ ap (λ (a : Option Bool). h.answered ++ (current a ++ x.channel)) busy;
      room = h.room;
      closed = h.closed;
      asks = h.asks;
      asks_on = h.asks_on;
      replies = λ fuel hs more rest. answers_on x is_head sent r h busy fuel hs more (
          responses_interim parse_url m fuel x.from_server r sent more is_head kind hs read lasting
            rest);
    }
    Turn-IsSerial x _ (answers is_head sent false kind r busy read lasting) h = record {
      k = h.k;
      j = suc h.j;
      heads = h.heads;
      answered = h.answered ++ is_head ∷ [];
      asked = h.asked;
      in_order =
          h.in_order
          ∙ ap (λ (a : Option Bool). h.answered ++ (current a ++ x.channel)) busy
          ∙ sym (append_assoc h.answered (is_head ∷ []) x.channel);
      room = h.room;
      closed = h.closed;
      asks = h.asks;
      asks_on = h.asks_on;
      replies = λ fuel hs more rest.
          ap (λ (l : List Bool). responses parse_url m (suc h.j + fuel) l from_server)
            (append_assoc h.answered (is_head ∷ []) hs)
          ∙ answers_on x is_head sent r h busy fuel hs more (
              responses_final parse_url m fuel x.from_server r sent more is_head kind hs read
                lasting rest);
    }

    pub Turns-append :
        (x y z : Exchange) → Turns parse_url m x y → Turns parse_url m y z → Turns parse_url m x z
    Turns-append x y _ before no_turn = before
    Turns-append x y z before (and_one w _ more last) =
        and_one w z (Turns-append x y w before more) last

    pub Turns-IsSerial :
        (x : Exchange) → Turns parse_url m (begin from_client from_server) x → IsSerial x
    Turns-IsSerial _ no_turn = begin-IsSerial
    Turns-IsSerial x (and_one y _ before last) = Turn-IsSerial y x last (Turns-IsSerial y before)
