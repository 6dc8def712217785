-- ===== src/Http2/Bridge/Ending.antt =====
-- The rounds of the bridge come to an end.
use fingerprint_bridge.Http2.Direction.Shorter.{read-length, handle-length, open_direction-length}
use fingerprint_bridge.Base.{
  ℕ, zero, suc, ◌+◌, ◌≤◌, ◌<◌, ap, List, true, false, length, none, some, Result, ok, err,
  Result-cases, arith, inl, inr, ◌⊎◌,
}
use fingerprint_bridge.Rewrite.Mapping.{Url, Mapping}
use fingerprint_bridge.Hpack.Rewriter.{HpackCrate}
use fingerprint_bridge.Http2.Frame.{read}
use fingerprint_bridge.Http2.Direction.{handle}
use fingerprint_bridge.Http2.Bridge.{
  Phase, waiting, running, ended, Bridge, start, Round, opens, take_request, client_ends,
  take_response, Rounds, none_yet, then_one, Ends, finished, response_unread, response_refused,
}

module _ (crate : HpackCrate) (parse_url : List ℕ → Result Url) (m : Mapping) where
  -- What bounds the rounds that are left: the bytes, and the changes of the phase.
  abbrev weight : Phase → ℕ
  weight waiting = 2
  weight running = 1
  weight ended = 0

  abbrev pub left : Bridge crate → ℕ
  left b = weight b.phase + (length b.from_client + length b.from_server)

  Round-less : (b c : Bridge crate) → Round crate parse_url m b c → left c < left b
  Round-less b _ (opens d r waits opened) =
      omega (
        arith,
        ap weight waits,
        open_direction-length crate parse_url m b.from_client (d, r) opened,
      )
  Round-less b _ (take_request frame r d r' runs found handled) = omega (
    arith,
    read-length b.from_client r frame found,
    handle-length crate parse_url m false b.responses.other frame r b.requests (d, r') handled,
  )
  Round-less b _ (client_ends runs at_end) = omega (arith, ap weight runs)
  Round-less b _ (take_response frame r d r' found handled) = omega (
    arith,
    read-length b.from_server r frame found,
    handle-length crate parse_url m true b.requests.other frame r b.responses (d, r') handled,
  )

  Rounds-less :
      (b : Bridge crate) (n : ℕ) (c : Bridge crate)
      → Rounds crate parse_url m b n c
      → n + left c ≤ left b
  Rounds-less b _ c none_yet = omega arith
  Rounds-less b _ c (then_one n c' _ before last) =
      omega (arith, Rounds-less b n c' before, Round-less c' c last)

  -- A state from which no round is possible is an end: already the responses give a round or an end.
  never_stuck :
      (b : Bridge crate)
      → ((c : Bridge crate) × Round crate parse_url m b c)
        ⊎ ((x : Result (Unit {0})) × Ends crate parse_url m b x)
  never_stuck b = elim (Result-cases (read b.from_server)) [
    | inr (e, unread) ↦ inr (err e, response_unread e unread)
    | inl (none, at_end) ↦ inr (ok tt, finished at_end)
    | inl (some (frame, r), found) ↦
        elim (Result-cases (handle crate parse_url m true b.requests.other frame r b.responses)) [
          | inr (e, refused) ↦ inr (err e, response_refused e frame r found refused)
          | inl ((d, r'), handled) ↦ inl (_, take_response frame r d r' found handled)
        ]
  ]

  runs_on :
      (fuel : ℕ) (b c : Bridge crate) (n : ℕ)
      → Rounds crate parse_url m b n c
      → left c ≤ fuel
      → (k : ℕ) × (c' : Bridge crate) × (x : Result (Unit {0})) × Rounds crate parse_url m b k c'
        × Ends crate parse_url m c' x
  runs_on zero b c n before enough = elim (never_stuck c) [
    | inl (c', one) ↦ absurd (omega (arith, enough, Round-less c c' one))
    | inr (x, ends) ↦ (n, c, x, before, ends)
  ]
  runs_on (suc fuel) b c n before enough = elim (never_stuck c) [
    | inl (c', one) ↦
        runs_on fuel b c' (suc n) (then_one n c c' before one)
          (omega (arith, enough, Round-less c c' one))
    | inr (x, ends) ↦ (n, c, x, before, ends)
  ]

  -- However the rounds of the two directions are ordered, there are at most two more than bytes that the
  -- peers send; and from every state that rounds lead to, further rounds lead to an end.
  pub Rounds-end :
      (from_client from_server : List ℕ) (n : ℕ) (b : Bridge crate)
      → Rounds crate parse_url m (start crate from_client from_server) n b
      → (n ≤ length from_client + length from_server + 2)
        × ((k : ℕ) × (c : Bridge crate) × (x : Result (Unit {0})) × Rounds crate parse_url m b k c
            × Ends crate parse_url m c x)
  Rounds-end from_client from_server n b before = (
    omega (arith, Rounds-less (start crate from_client from_server) n b before),
    runs_on (left b) b b 0 none_yet (omega arith),
  )
