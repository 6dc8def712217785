-- ===== src/Tests/ReceiverRuns.antt =====
-- The receiver of a rewritten block, and two rounds of the bridge.
use fingerprint_bridge.Base.{
  Bool, ◌&&◌, ltb, All, ◌≤◌, ◌+◌, ℕ, zero, suc, List, [], ◌∷◌, ◌++◌, ◌≡◌, refl, sym, ap, Bool-cases,
  inl, inr, true, false, some, length, ok, err, ok-injective, Result, if◌then◌else◌, arith,
}
use mathlib.Core.Path.{subst}
use fingerprint_bridge.Base.Bytes.{text, bytes_eq, bytes_eq_iff}
use fingerprint_bridge.Std.Ascii.{all, any, strip_prefix, lowercase}
use fingerprint_bridge.Rewrite.Mapping.{
  value, relevant, map_trimmed, map_url, map_authority, is_authority, authority,
}
use fingerprint_bridge.Std.Utf8.{from_utf8}
use fingerprint_bridge.Std.Trim.{trim_start_matches, trim_end_matches}
use fingerprint_bridge.Std.Split.{break_at}
use fingerprint_bridge.Hpack.Integer.{integer, put_int}
use fingerprint_bridge.Hpack.Strings.{put_string}
use fingerprint_bridge.Hpack.Table.{Header, Table, matches, position, get, find}
use fingerprint_bridge.Hpack.Rewriter.{
  HpackCrate, new, field, layout, skip_if, check_field, valid_name, valid_value, grow, put_field,
  put_indexed, step, rewrite, rewrite_loop,
}
use fingerprint_bridge.Hpack.Receiver.{Block, done, field as one_field, indexed}
use fingerprint_bridge.Hpack.Receiver.Rewritten.{IsReceived, rewrite_received}
use fingerprint_bridge.Http2.Frame.{Frame, read, read_exact, write}
use fingerprint_bridge.Http2.Reframe.{
  split_payload, header_parts, continuations, chunks, end_headers, reframe,
}
use fingerprint_bridge.Http2.Direction.{
  Direction, initial, new_limits, preface, gather, write_all, handle_headers, handle,
  open_direction,
}
use fingerprint_bridge.Http2.Direction.Gathered.{IsByte}
use fingerprint_bridge.Http2.Bridge.{
  Bridge, start, running, opens, take_response, Rounds, none_yet, then_one, Ends,
}
use fingerprint_bridge.Http2.Bridge.Orderly.{IsOrderly, Rounds-IsOrderly}
use fingerprint_bridge.Http2.Bridge.Ending.{Rounds-end}
use fingerprint_bridge.Tests.Inputs.{bridge, parse_plain}

abbrev location : List ℕ → Header
location host = (text "location", text "https://" ++ (host ++ text "/"))

abbrev locations : ℕ → List Header
locations zero = []
locations (suc n) = location (text "a.example") ∷ locations n

abbrev nothing_stored : Table
nothing_stored = record { entries = []; size = 0; limit = 4096 }

abbrev sent_block : List ℕ
sent_block = 0x82 ∷ []

-- A decoder that knows one block.
abbrev location_crate : HpackCrate
location_crate = record {
  Decoder = Unit {0};
  fresh = tt;
  decode = λ d bytes.
      if bytes_eq bytes sent_block then ok (d, location (text "a.example") ∷ []) else err "unknown";
  static_table = locations 61;
}

sent_block-Block :
    Block (locations 61) nothing_stored sent_block (location (text "a.example") ∷ []) nothing_stored
unfolding integer get
sent_block-Block = one_field sent_block [] (indexed 2 refl refl refl refl) done

location_decodes :
    (d d' : Unit {0}) (bytes : List ℕ) (hs : List Header)
    → location_crate.decode d bytes ≡ ok (d', hs)
    → Block (locations 61) nothing_stored bytes hs nothing_stored
location_decodes d d' bytes hs e = elim (Bool-cases (bytes_eq bytes sent_block)) [
  | inl known ↦
      let e' : ok (d, location (text "a.example") ∷ []) ≡ ok (d', hs) = rw known at e in
      subst (λ (b : List ℕ). Block (locations 61) nothing_stored b hs nothing_stored)
        (sym ((bytes_eq_iff bytes sent_block).0 known))
        (subst
          (λ (l : List Header). Block (locations 61) nothing_stored sent_block l nothing_stored)
          (ap (λ (x : Unit {0} × List Header). x.1) (ok-injective e')) sent_block-Block)
  | inr other ↦
      let refused : Result (Unit {0} × List Header) = err "unknown" in
      let e' : refused ≡ ok (d', hs) = rw other at e in cc
]

abbrev location_out : List ℕ
location_out = 0x01 ∷ 18 ∷ (text "https://b.example/")

rewrite_received_example :
    IsReceived location_crate
      (λ d. nothing_stored)
      parse_plain
      bridge
      true
      (new location_crate)
      (new location_crate)
      sent_block
      location_out
unfolding rewrite rewrite_loop step field layout integer skip_if check_field valid_name any
    valid_value strip_prefix bytes_eq value relevant lowercase grow put_field put_indexed find
    position matches put_int get put_string from_utf8 trim_start_matches trim_end_matches
    map_trimmed map_url map_authority is_authority authority all break_at
rewrite_received_example =
    rewrite_received location_crate (λ d. nothing_stored) parse_plain bridge true refl
      location_decodes sent_block (omega arith, tt) 4096 (new location_crate) (new location_crate)
      location_out (record { counted = refl; within = omega arith }) (omega arith) refl

abbrev are_bytes : List ℕ → Bool
are_bytes [] = true
are_bytes (c ∷ bytes) = ltb c 256 && are_bytes bytes

all_bytes : (bytes : List ℕ) → are_bytes bytes ≡ true → All IsByte bytes
all_bytes [] e = tt
all_bytes (c ∷ bytes) e = (ground arith, all_bytes bytes (ground arith))

-- The server's HEADERS frame, and what the client receives for it.
abbrev server_bytes : List ℕ
server_bytes = 0 ∷ 0 ∷ 1 ∷ 1 ∷ 4 ∷ 0 ∷ 0 ∷ 0 ∷ 1 ∷ sent_block

abbrev server_frame : Frame
server_frame = record { kind = 1; flags = 4; stream = 1; payload = sent_block }

abbrev client_bytes : List ℕ
client_bytes = 0 ∷ 0 ∷ 20 ∷ 1 ∷ 4 ∷ 0 ∷ 0 ∷ 0 ∷ 1 ∷ location_out

abbrev replied : Direction location_crate
replied = record { decoder = new location_crate; other = new_limits; sent = client_bytes }

abbrev asked : Direction location_crate
asked = record { decoder = new location_crate; other = new_limits; sent = preface }

abbrev at_start : Bridge location_crate
at_start = start location_crate preface server_bytes

abbrev opened : Bridge location_crate
opened = record at_start { phase = running; requests = asked; from_client = [] }

abbrev answered : Bridge location_crate
answered = record opened { responses = replied; from_server = [] }

reads_server : read server_bytes ≡ ok (some (server_frame, []))
unfolding read
reads_server = refl

replies :
    handle location_crate parse_plain bridge true new_limits server_frame []
      (initial location_crate)
    ≡ ok (replied, [])
unfolding handle handle_headers header_parts split_payload gather reframe continuations chunks
    end_headers write_all write rewrite rewrite_loop step field layout integer skip_if check_field
    valid_name any valid_value strip_prefix bytes_eq value relevant lowercase grow put_field
    put_indexed find position matches put_int get put_string from_utf8 trim_start_matches
    trim_end_matches map_trimmed map_url map_authority is_authority authority all break_at
replies = refl

opens_so : open_direction location_crate parse_plain bridge false preface ≡ ok (asked, [])
unfolding open_direction read_exact bytes_eq
opens_so = refl

two-Rounds : Rounds location_crate parse_plain bridge at_start 2 answered
two-Rounds =
    then_one 1 opened answered (then_one 0 at_start opened none_yet (opens asked [] refl opens_so))
      (take_response server_frame [] replied [] reads_server replies)

Rounds-IsOrderly_example : IsOrderly location_crate answered
Rounds-IsOrderly_example =
    Rounds-IsOrderly location_crate (λ d. nothing_stored) parse_plain bridge refl location_decodes
      preface server_bytes (all_bytes preface refl) (all_bytes server_bytes refl) 2 answered
      two-Rounds

Rounds-end_example :
    (2 ≤ length preface + length server_bytes + 2)
    × ((k : ℕ) × (c : Bridge location_crate) × (x : Result (Unit {0})) × Rounds location_crate
          parse_plain bridge answered k c
        × Ends location_crate parse_plain bridge c x)
Rounds-end_example =
    Rounds-end location_crate parse_plain bridge preface server_bytes 2 answered two-Rounds
