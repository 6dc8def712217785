-- ===== src/Http2/Bridge.antt =====
-- `bridge` of src/h2.rs: its two directions, each of which loads the limits that the other stores, as
-- a relation between states. A round of a direction is one frame, or one HEADERS frame with its
-- CONTINUATION frames. Both directions run in one task, and a round has no `await` between its two loads
-- or among its stores, so that it sees the limits as they are at one time. Which direction goes on is
-- tokio's choice: any order of the rounds is possible.
pub mod Orderly
pub mod Ending
pub mod Passing
pub mod Relayed
use fingerprint_bridge.Base.{
  ℕ, zero, suc, List, Bool, true, false, ◌≡◌, Option, none, some, Result, ok, err, String,
}
use fingerprint_bridge.Rewrite.Mapping.{Url, Mapping}
use fingerprint_bridge.Hpack.Rewriter.{HpackCrate}
use fingerprint_bridge.Http2.Frame.{Frame, read}
use fingerprint_bridge.Http2.Direction.{Direction, initial, handle, open_direction}

-- What the direction of the requests does: it waits for the connection preface, takes frames, or has
-- come to the client's end.
pub data Phase : Type 0 where
  waiting : Phase
  running : Phase
  ended : Phase

module _ (crate : HpackCrate) where
  pub record Bridge : Type 0 where
    pub phase : Phase
    pub requests : Direction crate
    pub responses : Direction crate
    pub from_client : List ℕ
    pub from_server : List ℕ

  -- Both directions as they start, with what the two peers will send.
  abbrev pub start : List ℕ → List ℕ → Bridge
  start from_client from_server = record {
    phase = waiting;
    requests = initial crate;
    responses = initial crate;
    from_client = from_client;
    from_server = from_server;
  }

module _ (crate : HpackCrate) (parse_url : List ℕ → Result Url) (m : Mapping) where
  -- A round of one direction.
  pub data Round (b : Bridge crate) : Bridge crate → Type 0 where
    opens :
        (d : Direction crate) (r : List ℕ)
        → b.phase ≡ waiting
        → open_direction crate parse_url m false b.from_client ≡ ok (d, r)
        → Round b (record b { phase = running; requests = d; from_client = r })
    take_request :
        (frame : Frame) (r : List ℕ) (d : Direction crate) (r' : List ℕ)
        → b.phase ≡ running
        → read b.from_client ≡ ok (some (frame, r))
        → handle crate parse_url m false b.responses.other frame r b.requests ≡ ok (d, r')
        → Round b (record b { requests = d; from_client = r' })
    client_ends :
        b.phase ≡ running → read b.from_client ≡ ok none → Round b (record b { phase = ended })
    take_response :
        (frame : Frame) (r : List ℕ) (d : Direction crate) (r' : List ℕ)
        → read b.from_server ≡ ok (some (frame, r))
        → handle crate parse_url m true b.requests.other frame r b.responses ≡ ok (d, r')
        → Round b (record b { responses = d; from_server = r' })

  -- How `tokio::select!` ends: with the responses, or with an error of either direction.
  pub data Ends (b : Bridge crate) : Result (Unit {0}) → Type 0 where
    finished : read b.from_server ≡ ok none → Ends b (ok tt)
    no_preface :
        (e : String)
        → b.phase ≡ waiting
        → open_direction crate parse_url m false b.from_client ≡ err e
        → Ends b (err e)
    request_unread : (e : String) → b.phase ≡ running → read b.from_client ≡ err e → Ends b (err e)
    request_refused :
        (e : String) (frame : Frame) (r : List ℕ)
        → b.phase ≡ running
        → read b.from_client ≡ ok (some (frame, r))
        → handle crate parse_url m false b.responses.other frame r b.requests ≡ err e
        → Ends b (err e)
    response_unread : (e : String) → read b.from_server ≡ err e → Ends b (err e)
    response_refused :
        (e : String) (frame : Frame) (r : List ℕ)
        → read b.from_server ≡ ok (some (frame, r))
        → handle crate parse_url m true b.requests.other frame r b.responses ≡ err e
        → Ends b (err e)

  -- So many rounds, one after the other.
  pub data Rounds (b : Bridge crate) : ℕ → Bridge crate → Type 0 where
    none_yet : Rounds b 0 b
    then_one : (n : ℕ) (c c' : Bridge crate) → Rounds b n c → Round c c' → Rounds b (suc n) c'
