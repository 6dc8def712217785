-- ===== src/H1/Bridge/Exchange.antt =====
-- The two loops of `bridge` of src/h1.rs with the channel between them, as a relation between states.
-- The turns are cut where the loops use the channel: a request's head is read, sent on the channel and
-- written in one turn, its body is copied in another; an answer waits for the channel in one turn, and
-- each response is copied in another. Which loop goes on is tokio's choice.
pub mod Loops
pub mod Keeping
pub mod Serial
pub mod Ending
use fingerprint_bridge.Base.{
  ℕ, zero, suc, ◌+◌, List, [], ◌∷◌, ◌++◌, Bool, true, false, ◌≡◌, leb, length, if◌then◌else◌,
  Option, none, some, String, Result, ok, err,
}
use fingerprint_bridge.Rewrite.Mapping.{Url, Mapping}
use fingerprint_bridge.H1.Framing.{Body}
use fingerprint_bridge.H1.Body.{body}
use fingerprint_bridge.H1.Bridge.{request_head, response, is_until_eof}

-- `mpsc::channel::<bool>(32)`
abbrev pub capacity : ℕ
capacity = 32

-- Where the two loops are: `pending` is the body that is still to be copied, `more_requests` whether more
-- requests may come, and `answering` the request that is being answered.
pub record Exchange : Type 0 where
  pub from_client : List ℕ
  pub pending : Option Body
  pub more_requests : Bool
  pub upstream : List ℕ
  pub channel : List Bool
  pub from_server : List ℕ
  pub answering : Option Bool
  pub downstream : List ℕ

abbrev pub begin : List ℕ → List ℕ → Exchange
begin from_client from_server = record {
  from_client = from_client;
  pending = none;
  more_requests = true;
  upstream = [];
  channel = [];
  from_server = from_server;
  answering = none;
  downstream = [];
}

module _ (parse_url : List ℕ → Result Url) (m : Mapping) where
  pub data Turn (x : Exchange) : Exchange → Type 0 where
    sends :
        (rewritten : List ℕ) (is_head : Bool) (kind : Body) (r : List ℕ)
        → x.pending ≡ none
        → x.more_requests ≡ true
        → request_head parse_url m x.from_client ≡ ok (some (rewritten, is_head, kind, r))
        → leb (length x.channel + 1) capacity ≡ true
        → Turn x (record x {
          from_client = r;
          pending = some kind;
          upstream = x.upstream ++ rewritten;
          channel = x.channel ++ is_head ∷ [];
        })
    copies :
        (kind : Body) (copied r : List ℕ)
        → x.pending ≡ some kind
        → body kind x.from_client ≡ ok (copied, r)
        → Turn x (record x { from_client = r; pending = none; upstream = x.upstream ++ copied })
    closes :
        x.pending ≡ none
        → x.more_requests ≡ true
        → request_head parse_url m x.from_client ≡ ok none
        → Turn x (record x { more_requests = false })
    receives :
        (is_head : Bool) (later : List Bool)
        → x.answering ≡ none
        → x.channel ≡ is_head ∷ later
        → Turn x (record x { answering = some is_head; channel = later })
    answers :
        (is_head : Bool) (sent : List ℕ) (interim : Bool) (kind : Body) (r : List ℕ)
        → x.answering ≡ some is_head
        → response parse_url m is_head x.from_server ≡ ok (sent, interim, kind, r)
        → is_until_eof parse_url m kind ≡ false
        → Turn x (record x {
          from_server = r;
          answering = if interim then some is_head else none;
          downstream = x.downstream ++ sent;
        })

  -- How `tokio::select!` ends: with all that was sent to the client, or with an error of either loop.
  pub data Closes (x : Exchange) : Result (List ℕ) → Type 0 where
    all_answered :
        x.more_requests ≡ false → x.answering ≡ none → x.channel ≡ [] → Closes x (ok x.downstream)
    until_closed :
        (is_head : Bool) (sent : List ℕ) (interim : Bool) (kind : Body) (r : List ℕ)
        → x.answering ≡ some is_head
        → response parse_url m is_head x.from_server ≡ ok (sent, interim, kind, r)
        → is_until_eof parse_url m kind ≡ true
        → Closes x (ok (x.downstream ++ sent))
    request_refused :
        (e : String)
        → x.pending ≡ none
        → x.more_requests ≡ true
        → request_head parse_url m x.from_client ≡ err e
        → Closes x (err e)
    body_refused :
        (kind : Body) (e : String)
        → x.pending ≡ some kind
        → body kind x.from_client ≡ err e
        → Closes x (err e)
    response_refused :
        (is_head : Bool) (e : String)
        → x.answering ≡ some is_head
        → response parse_url m is_head x.from_server ≡ err e
        → Closes x (err e)

  pub data Turns (x : Exchange) : Exchange → Type 0 where
    no_turn : Turns x x
    and_one : (y z : Exchange) → Turns x y → Turn y z → Turns x z
