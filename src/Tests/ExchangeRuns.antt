-- ===== src/Tests/ExchangeRuns.antt =====
-- One request and its response, through both loops of the HTTP/1.1 bridge.
use fingerprint_bridge.Base.{Result, ◌<◌, ℕ, List, [], ◌∷◌, true, false, refl, none, some}
use fingerprint_bridge.Base.Bytes.{text}
use fingerprint_bridge.H1.Framing.{empty}
use fingerprint_bridge.H1.Bridge.Exchange.{Exchange, begin, receives, Closes, Turns}
use fingerprint_bridge.H1.Bridge.Exchange.Ending.{left, Turn-left}
use fingerprint_bridge.Tests.Inputs.{bridge, parse_plain}

abbrev asked_bytes : List ℕ
asked_bytes = text "HEAD / HTTP/1.1\r\nHost: b.example\r\n\r\n"

abbrev mapped_bytes : List ℕ
mapped_bytes = text "HEAD / HTTP/1.1\r\nHost: a.example\r\n\r\n"

abbrev answer_bytes : List ℕ
answer_bytes = text "HTTP/1.1 200 OK\r\nContent-Length: 5\r\n\r\n"

abbrev state₀ : Exchange
state₀ = begin asked_bytes answer_bytes

abbrev state₁ : Exchange
state₁ = record state₀ {
  from_client = [];
  pending = some empty;
  upstream = mapped_bytes;
  channel = true ∷ [];
}

abbrev state₂ : Exchange
state₂ = record state₁ { pending = none }

abbrev state₃ : Exchange
state₃ = record state₂ { answering = some true; channel = [] }

abbrev state₄ : Exchange
state₄ = record state₃ { from_server = []; answering = none; downstream = answer_bytes }

abbrev state₅ : Exchange
state₅ = record state₄ { more_requests = false }

Turn-left_example :
    (left parse_plain bridge state₃ < left parse_plain bridge state₂)
    × ((z : Exchange) × (e : Result (List ℕ)) × Turns parse_plain bridge state₃ z
        × Closes parse_plain bridge z e)
Turn-left_example = Turn-left parse_plain bridge state₂ state₃ (receives true [] refl refl)
