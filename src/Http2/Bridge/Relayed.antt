-- ===== src/Http2/Bridge/Relayed.antt =====
-- What the two directions of the bridge have passed on after any rounds.
use fingerprint_bridge.Http2.Bridge.Passing.{IsRelayed}
use fingerprint_bridge.Base.{ℕ, ◌≡◌, List, [], true, false, Result}
use fingerprint_bridge.Rewrite.Mapping.{Url, Mapping}
use fingerprint_bridge.Hpack.Table.{Table}
use fingerprint_bridge.Hpack.Rewriter.{HpackCrate}
use fingerprint_bridge.Http2.Direction.{Direction, preface}
use fingerprint_bridge.Http2.Bridge.{Phase, waiting, running, ended, Bridge}

-- The connection preface, once the direction of the requests has passed it on.
abbrev pub opening_of : Phase → List ℕ
opening_of waiting = []
opening_of running = preface
opening_of ended = preface

module _ (crate : HpackCrate) (table_of : crate.Decoder → Table) (parse_url : List ℕ → Result Url)
    (m : Mapping) where
  pub record IsBridged (from_client from_server : List ℕ) (b : Bridge crate) : Type 0 where
    pub requests :
        IsRelayed crate table_of parse_url m false from_client
          (opening_of b.phase)
          b.requests
          b.from_client
    pub responses :
        IsRelayed crate table_of parse_url m true from_server [] b.responses b.from_server
    pub unopened : b.phase ≡ waiting → b.from_client ≡ from_client
