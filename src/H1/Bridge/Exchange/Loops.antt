-- ===== src/H1/Bridge/Exchange/Loops.antt =====
-- One more request, and one more response, in front of what the loops go on to do.
use fingerprint_bridge.Base.{
  ℕ, suc, List, [], ◌∷◌, ◌++◌, Bool, true, false, ◌≡◌, refl, none, some, Result, ok,
}
use fingerprint_bridge.Rewrite.Mapping.{Url, Mapping}
use fingerprint_bridge.H1.Framing.{Body}
use fingerprint_bridge.H1.Body.{body}
use fingerprint_bridge.H1.Bridge.{
  request_head, request, requests, response, responses, is_until_eof,
}

module _ (parse_url : List ℕ → Result Url) (m : Mapping) where
  pub some≢none : {k : Body} → some k ≡ none → ⊥
  some≢none e = cc

  pub requests_more :
      (fuel : ℕ) (now r r' rewritten copied more : List ℕ) (is_head : Bool) (kind : Body)
      (hs : List Bool)
      → request_head parse_url m now ≡ ok (some (rewritten, is_head, kind, r))
      → body kind r ≡ ok (copied, r')
      → requests parse_url m fuel r' ≡ ok (more, hs)
      → requests parse_url m (suc fuel) now ≡ ok ((rewritten ++ copied) ++ more, is_head ∷ hs)
  unfolding requests request
  requests_more fuel now r r' rewritten copied more is_head kind hs e e' rest =
      rw (e, e', rest) refl

  pub requests_over :
      (now : List ℕ)
      → request_head parse_url m now ≡ ok none
      → requests parse_url m 1 now ≡ ok ([], [])
  unfolding requests request
  requests_over now e = rw e refl

  pub responses_over : (now : List ℕ) → responses parse_url m 1 [] now ≡ ok []
  unfolding responses
  responses_over now = refl

  pub responses_interim :
      (fuel : ℕ) (now r sent more : List ℕ) (is_head : Bool) (kind : Body) (hs : List Bool)
      → response parse_url m is_head now ≡ ok (sent, true, kind, r)
      → is_until_eof parse_url m kind ≡ false
      → responses parse_url m fuel (is_head ∷ hs) r ≡ ok more
      → responses parse_url m (suc fuel) (is_head ∷ hs) now ≡ ok (sent ++ more)
  unfolding responses
  responses_interim fuel now r sent more is_head kind hs e eof rest = rw (e, eof, rest) refl

  pub responses_final :
      (fuel : ℕ) (now r sent more : List ℕ) (is_head : Bool) (kind : Body) (hs : List Bool)
      → response parse_url m is_head now ≡ ok (sent, false, kind, r)
      → is_until_eof parse_url m kind ≡ false
      → responses parse_url m fuel hs r ≡ ok more
      → responses parse_url m (suc fuel) (is_head ∷ hs) now ≡ ok (sent ++ more)
  unfolding responses
  responses_final fuel now r sent more is_head kind hs e eof rest = rw (e, eof, rest) refl

  pub responses_last :
      (now r sent : List ℕ) (is_head interim : Bool) (kind : Body) (hs : List Bool)
      → response parse_url m is_head now ≡ ok (sent, interim, kind, r)
      → is_until_eof parse_url m kind ≡ true
      → responses parse_url m 1 (is_head ∷ hs) now ≡ ok sent
  unfolding responses
  responses_last now r sent is_head interim kind hs e eof = rw (e, eof) refl
