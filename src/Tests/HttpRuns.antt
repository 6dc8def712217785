-- ===== src/Tests/HttpRuns.antt =====
-- HTTP/2 frames and HTTP/1.1 messages.
use fingerprint_bridge.Base.{ℕ, List, [], ◌∷◌, ◌++◌, ◌≡◌, inl, inr, refl, false, some, ok, arith}
use fingerprint_bridge.Base.Bytes.{text, bytes_eq}
use fingerprint_bridge.Std.Ascii.{strip_suffix, all}
use fingerprint_bridge.Std.Split.{break_at}
use fingerprint_bridge.Http2.Frame.{Frame, read, read_exact, write}
use fingerprint_bridge.Http2.Frame.RoundTrip.{read-write}
use fingerprint_bridge.Http2.Settings.{settings}
use fingerprint_bridge.Http2.Reframe.{chunks as frame_chunks}
use fingerprint_bridge.Http2.Direction.{PeerLimits, new_limits, Direction, direction, preface}
use fingerprint_bridge.Http2.Direction.Verbatim.{wire, direction_verbatim}
use fingerprint_bridge.H1.Lines.{line, line_of}
use fingerprint_bridge.H1.Lines.Conserved.{IsCut}
use fingerprint_bridge.H1.Framing.{chunked}
use fingerprint_bridge.H1.Body.{exact, parse_hex, trailers, chunk_data, chunk_size, chunks, body}
use fingerprint_bridge.H1.Body.Conserved.{body-IsCut}
use fingerprint_bridge.Tests.Inputs.{bridge, parse_plain, get_crate}

abbrev data_frame : Frame
data_frame = record { kind = 0; flags = 1; stream = 1; payload = text "hello" }

abbrev settings_frame : Frame
settings_frame = record { kind = 4; flags = 0; stream = 0; payload = 0 ∷ 5 ∷ 0 ∷ 0 ∷ 64 ∷ 0 ∷ [] }

read-write_example :
    (bytes : List ℕ) × (write data_frame ≡ ok bytes)
    × (read (bytes ++ 7 ∷ []) ≡ ok (some (data_frame, 7 ∷ [])))
read-write_example = read-write data_frame (7 ∷ []) (omega arith, omega arith)

-- A HEADERS frame with two bytes of padding, and a CONTINUATION frame.
abbrev headers_frame : Frame
headers_frame = record { kind = 1; flags = 8; stream = 1; payload = 2 ∷ 0x82 ∷ 0 ∷ 0 ∷ [] }

abbrev continuation_frame : Frame
continuation_frame = record { kind = 9; flags = 4; stream = 1; payload = 0x84 ∷ [] }

-- The block grows.
abbrev grown : List ℕ
grown = 0x82 ∷ 0x84 ∷ 0x87 ∷ []

abbrev resent : List Frame
resent = headers_frame ∷ record continuation_frame { payload = 0x84 ∷ 0x87 ∷ [] } ∷ []

abbrev received : List Frame
received = settings_frame ∷ data_frame ∷ []

abbrev default_limits : ℕ → PeerLimits
default_limits k = new_limits

direction_verbatim_example :
    (d : Direction get_crate) × (direction get_crate parse_plain bridge false default_limits
        (preface ++ wire received)
      ≡ ok d)
    × (d.sent ≡ preface ++ wire received)
unfolding direction settings
direction_verbatim_example =
    direction_verbatim get_crate parse_plain bridge false default_limits received (
      ((omega arith, omega arith), inr (refl, (5, 16384) ∷ [], refl, ((λ e. refl), tt))),
      (((omega arith, omega arith), inl (refl, refl, refl, refl)), tt),
    )

abbrev chunked_body : List ℕ
chunked_body = text "3\r\nabc\r\n0\r\n\r\n"

body-IsCut_example : IsCut (chunked_body ++ 7 ∷ []) (chunked_body, 7 ∷ [])
unfolding body chunks chunk_size chunk_data trailers exact parse_hex line line_of break_at
    strip_suffix bytes_eq all read_exact
body-IsCut_example = body-IsCut chunked (chunked_body ++ 7 ∷ []) (chunked_body, 7 ∷ []) refl
