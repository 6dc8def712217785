-- ===== src/Http2/Bridge/Orderly.antt =====
-- What holds of the bridge after any rounds.
use mathlib.Core.Path.{subst}
use mathlib.Core.Bool.{true≢false}
use fingerprint_bridge.Base.{
  ℕ, ◌≤◌, ◌≡◌, refl, sym, ap, ◌∙◌, List, [], ◌∷◌, ◌++◌, Bool, true, false, ◌&&◌, ◌==◌, leb, length,
  All, Result, ok, >>=-eq-ok, ensure, ensure-eq-ok, ok-injective, arith, Bool-cases, inl, inr,
}
use fingerprint_bridge.Base.Bytes.{bytes_eq}
use fingerprint_bridge.Rewrite.Mapping.{Url, Mapping}
use fingerprint_bridge.Hpack.Table.{Header, Table}
use fingerprint_bridge.Hpack.Table.Eviction.{IsValid}
use fingerprint_bridge.Hpack.Rewriter.{HpackCrate}
use fingerprint_bridge.Hpack.Receiver.{Block}
use fingerprint_bridge.Http2.Frame.{Frame, write, read_exact}
use fingerprint_bridge.Http2.Direction.{
  PeerLimits, Direction, initial, apply_settings, handle, open_direction, preface,
}
use fingerprint_bridge.Http2.Direction.Cases.{
  Handled, by_headers, by_settings, passed_on, handle-Handled,
}
use fingerprint_bridge.Http2.Direction.Gathered.{IsByte, HasBytes, read-bytes, read_exact-bytes}
use fingerprint_bridge.Http2.Direction.Verbatim.{bytes_of, frame_bytes}
use fingerprint_bridge.Http2.Direction.Received.{IsPassed, handle_headers_received}
use fingerprint_bridge.Http2.Bridge.{
  Bridge, start, Round, opens, take_request, client_ends, take_response, Rounds, none_yet, then_one,
}

-- The limit is one that `reframe` accepts.
abbrev pub IsFrameLimit : PeerLimits → Type 0
IsFrameLimit l = (16384 ≤ l.frame) × (l.frame ≤ 0xffffff)

apply_settings-IsFrameLimit :
    (entries : List (ℕ × ℕ)) (l l' : PeerLimits)
    → IsFrameLimit l
    → apply_settings entries l ≡ ok l'
    → IsFrameLimit l'
unfolding apply_settings
apply_settings-IsFrameLimit [] l l' h e = subst IsFrameLimit (ok-injective e) h
apply_settings-IsFrameLimit ((id, value) ∷ entries) l l' h e = elim (Bool-cases (id == 1)) [
  | inl table ↦
      apply_settings-IsFrameLimit entries (record l { table = value }) l' h
        (rw (table, apply_settings) at e)
  | inr not_table ↦ elim (Bool-cases (id == 5)) [
    | inl frame ↦
        let (u, range, rest) =
          >>=-eq-ok
            (ensure (leb 16384 value && leb value 0xffffff) "invalid SETTINGS_MAX_FRAME_SIZE")
            (λ u. apply_settings entries (record l { frame = value }))
            (rw (not_table, frame, apply_settings) at e) in
        let both : (leb 16384 value && leb value 0xffffff) ≡ true = ensure-eq-ok _ _ range in
        apply_settings-IsFrameLimit entries (record l { frame = value }) l'
          (ground arith, ground arith) rest
    | inr other ↦
        apply_settings-IsFrameLimit entries l l' h (rw (not_table, other, apply_settings) at e)
  ]
]

module _ (crate : HpackCrate) where
  pub record IsReady (d : Direction crate) : Type 0 where
    pub table : IsValid d.decoder.outbound
    pub limit : d.decoder.outbound.limit ≤ 65536
    pub stored : IsFrameLimit d.other

  initial-IsReady : IsReady (initial crate)
  initial-IsReady = record {
    table = record { counted = refl; within = omega arith };
    limit = omega arith;
    stored = (omega arith, omega arith);
  }

  -- Both directions are ready for any frame, and what is still to come are bytes.
  pub record IsOrderly (b : Bridge crate) : Type 0 where
    pub requests : IsReady b.requests
    pub responses : IsReady b.responses
    pub client : All IsByte b.from_client
    pub server : All IsByte b.from_server

  module _ (table_of : crate.Decoder → Table) (parse_url : List ℕ → Result Url) (m : Mapping)
      (sixty_one : length crate.static_table ≡ 61)
      (decodes : (d d' : crate.Decoder) (bytes : List ℕ) (hs : List Header)
        → crate.decode d bytes ≡ ok (d', hs)
        → Block crate.static_table (table_of d) bytes hs (table_of d')) where
    pub record IsHandled (response : Bool) (limits : PeerLimits) (frame : Frame) (r : List ℕ)
        (d d' : Direction crate) (r' : List ℕ) : Type 0 where
      pub ready : IsReady d'
      pub left : All IsByte r'
      pub kept :
          (frame.kind == 1) ≡ false
          → (d'.decoder ≡ d.decoder) × (d'.sent ≡ d.sent ++ frame_bytes frame) × (r' ≡ r)
      pub passed :
          (frame.kind == 1) ≡ true
          → IsPassed crate table_of parse_url m response limits frame r d d' r'

    pub handle-IsHandled :
        (response : Bool) (limits : PeerLimits) (frame : Frame) (r : List ℕ)
        (d d' : Direction crate) (r' : List ℕ)
        → HasBytes frame
        → All IsByte r
        → IsReady d
        → handle crate parse_url m response limits frame r d ≡ ok (d', r')
        → IsHandled response limits frame r d d' r'
    handle-IsHandled response limits frame r d d' r' octets bytes h e =
        go (d', r') (handle-Handled crate parse_url m response limits frame r d (d', r') e)
      where
        unread :
            (next : Direction crate) (written : List ℕ)
            → IsReady next
            → (frame.kind == 1) ≡ false
            → write frame ≡ ok written
            → next.decoder ≡ d.decoder
            → next.sent ≡ d.sent ++ written
            → IsHandled response limits frame r d next r
        unread next written ready not_headers wrote same_decoder sent = record {
          ready = ready;
          left = bytes;
          kept = λ other. (
            same_decoder,
            sent ∙ ap (λ (b : Result (List ℕ)). d.sent ++ bytes_of b) (sym wrote),
            refl,
          );
          passed = λ headers. absurd (true≢false (sym headers ∙ not_headers));
        }

        go :
            (x : Direction crate × List ℕ)
            → Handled crate parse_url m response limits frame r d x
            → IsHandled response limits frame r d x.0 x.1
        go x (by_headers _ headers done) =
            let passed =
              handle_headers_received crate table_of parse_url m response sixty_one decodes limits
                frame r d x.0 x.1 octets bytes h.table h.limit done in
            record {
              ready = record {
                table = passed.valid;
                limit = passed.received.limit;
                stored = subst IsFrameLimit (sym passed.other) h.stored;
              };
              left = passed.left;
              kept = λ other. absurd (true≢false (sym headers ∙ other));
              passed = λ is_headers. passed;
            }
        go _ (by_settings entries other written not_headers applied wrote) =
            let stored = apply_settings-IsFrameLimit entries d.other other h.stored applied in
            unread (record d { other = other; sent = d.sent ++ written }) written
              (record { table = h.table; limit = h.limit; stored = stored }) not_headers wrote refl
              refl
        go _ (passed_on written not_headers wrote) =
            unread (record d { sent = d.sent ++ written }) written
              (record { table = h.table; limit = h.limit; stored = h.stored }) not_headers wrote
              refl refl

    open_direction-IsReady :
        (r : List ℕ) (d : Direction crate) (r' : List ℕ)
        → All IsByte r
        → open_direction crate parse_url m false r ≡ ok (d, r')
        → IsReady d × All IsByte r'
    unfolding open_direction
    open_direction-IsReady r d r' bytes e =
        let (x, taken, e₁) = >>=-eq-ok (read_exact 24 r) _ e in
        let (u, same, e₂) =
          >>=-eq-ok (ensure (bytes_eq x.0 preface) "invalid HTTP/2 preface") _ e₁ in
        let (start, rest) = read_exact-bytes 24 r x bytes taken in
        let i : IsReady (initial crate) = initial-IsReady in
        let opened : IsReady (record (initial crate) { sent = x.0 }) = record {
          table = i.table;
          limit = i.limit;
          stored = i.stored;
        } in
        subst (λ (y : Direction crate × List ℕ). IsReady y.0 × All IsByte y.1) (ok-injective e₂)
          (opened, rest)

    pub Round-IsOrderly :
        (b c : Bridge crate) → IsOrderly b → Round crate parse_url m b c → IsOrderly c
    Round-IsOrderly b _ h (opens d r waits opened) =
        let (ready, left) = open_direction-IsReady b.from_client d r h.client opened in
        record { requests = ready; responses = h.responses; client = left; server = h.server }
    Round-IsOrderly b _ h (take_request frame r d r' runs found handled) =
        let (has, rest) = read-bytes b.from_client r frame h.client found in
        let x =
          handle-IsHandled false b.responses.other frame r b.requests d r' has rest h.requests
            handled in
        record { requests = x.ready; responses = h.responses; client = x.left; server = h.server }
    Round-IsOrderly b _ h (client_ends runs at_end) = record {
      requests = h.requests;
      responses = h.responses;
      client = h.client;
      server = h.server;
    }
    Round-IsOrderly b _ h (take_response frame r d r' found handled) =
        let (has, rest) = read-bytes b.from_server r frame h.server found in
        let x =
          handle-IsHandled true b.requests.other frame r b.responses d r' has rest h.responses
            handled in
        record { requests = h.requests; responses = x.ready; client = h.client; server = x.left }

    -- After any rounds of the two directions in any order, both outgoing tables are valid and within
    -- 64 KiB, the frame limits that the directions stored for each other are ones that `reframe` accepts,
    -- and what is still to be read are bytes. The hypotheses on the crate are those of a receiver: a static
    -- table of 61 entries, and a decoder whose answers are what the bytes mean under its own table; what
    -- the peers send are bytes.
    pub Rounds-IsOrderly :
        (from_client from_server : List ℕ)
        → All IsByte from_client
        → All IsByte from_server
        → (n : ℕ) (b : Bridge crate)
        → Rounds crate parse_url m (start crate from_client from_server) n b
        → IsOrderly b
    Rounds-IsOrderly from_client from_server client server _ b none_yet = record {
      requests = initial-IsReady;
      responses = initial-IsReady;
      client = client;
      server = server;
    }
    Rounds-IsOrderly from_client from_server client server _ b (then_one n c c' before last) =
        Round-IsOrderly c b (Rounds-IsOrderly from_client from_server client server n c before) last
