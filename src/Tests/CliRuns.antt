-- ===== src/Tests/CliRuns.antt =====
-- The program on concrete inputs: two hellos compared, offers answered, connections let in.
use fingerprint_bridge.Base.{
  ℕ, ◌+◌, ◌≡◌, ◌≢◌, ◌↔◌, refl, List, [], ◌∷◌, ◌++◌, All, true, false, none, some, length,
  if◌then◌else◌, Result, ok, take, drop, take-append-drop, arith,
}
use fingerprint_bridge.Base.Bytes.{text, bytes_eq}
use fingerprint_bridge.Fingerprint.Hello.{parse_hello}
use fingerprint_bridge.Fingerprint.Json.KeySet.{has, key_set, insert_key, text_lt}
use fingerprint_bridge.Fingerprint.Records.{client_hello, records_loop, complete}
use fingerprint_bridge.Fingerprint.Reader.{u16, u8, take_bytes, v8, v16, words, normalize, grease}
use fingerprint_bridge.Fingerprint.Ja3.{ja3, ja3_string, list, filtered}
use fingerprint_bridge.Fingerprint.Ja4.{
  ja4, version_of, maximum, alpn_of, hash, sort, insert_sorted, retained, extensions_text,
}
use fingerprint_bridge.Fingerprint.Evidence.{evidence}
use fingerprint_bridge.Std.Ascii.{elem, any}
use fingerprint_bridge.Std.Format.{to_decimal, digits, to_decimal_02, to_hex_04, zero_padded}
use fingerprint_bridge.Tls.Order.{extension_order, order_loop, backend_extensions}
use fingerprint_bridge.Fingerprint.Compare.{
  Comparison, compare, layers_loop, observation, valid, differences, walk, unequal, field_or_null,
  in_layer,
}
use fingerprint_bridge.Fingerprint.Compare.Agreement.{LayerAgrees, compare-pass_iff}
use fingerprint_bridge.Fingerprint.Compare.Real.{IsFound, IsMissing, compare-IsReal}
use fingerprint_bridge.Tls.Mirror.{
  alpn_wire, mirror, decode_all, run_steps, steps, selected, unpatched_steps, limitations,
  reports_by_kind, refused, only_tls13,
}
use fingerprint_bridge.Transport.Replay.{Stream, new, poll_reads, unread}
use fingerprint_bridge.Transport.ReadHello.{Arrived, read_loop, read_hello}
use fingerprint_bridge.Transport.ReadHello.Consumes.{read_hello-replayed}
use fingerprint_bridge.Transport.Tap.{idle, poll_writes, poll_write, holds_hello}
use fingerprint_bridge.Transport.Tap.Prefix.{Copies, written, poll_writes-Copies-idle}
use fingerprint_bridge.Cli.Alpn.{agreed, noack, select_alpn}
use fingerprint_bridge.Cli.Alpn.Offered.{select_alpn-alpn_wire}
use fingerprint_bridge.Cli.Run.{run_compare, exit_code}
use fingerprint_bridge.Cli.Run.Codes.{exit_code-run_compare}
use fingerprint_bridge.Cli.Serve.{Server, begin, at_start, then_step, accept, accepted}
use fingerprint_bridge.Cli.Serve.Limit.{WithinLimit, Reachable-WithinLimit}
use fingerprint_bridge.Cli.Connection.{
  Packages, Serve, Outside, Session, setup, layers_of, server_builder, without_brackets,
}
use fingerprint_bridge.Cli.Connection.Gate.{Admitted, setup-Admitted}
use fingerprint_bridge.Tests.Inputs.{bridge, hello_record, plain_hello, one_cipher, permit}
use fingerprint_bridge.Tests.Json.{Tree, nul, word, bare, with_field, trees, tree_find, tree_equal}

-- Evidence with one layer; in the second, a field is null where the first has none.
abbrev baseline : Tree
baseline = with_field (text "tls") (with_field (text "a") (word (text "x")) bare) bare

abbrev observed : Tree
observed =
    with_field (text "tls")
      (with_field (text "b") nul (with_field (text "a") (word (text "x")) bare)) bare

abbrev tls_layer : List (List ℕ)
tls_layer = text "tls" ∷ []

compare-pass_iff_example :
    ((r : Comparison trees) × (compare trees baseline observed tls_layer ≡ ok r) × (r.pass ≡ true))
    ↔ ((tls_layer ≢ []) × All (LayerAgrees trees baseline observed) tls_layer)
compare-pass_iff_example = compare-pass_iff trees baseline observed tls_layer

exit_code-run_compare_example :
    (exit_code (run_compare trees (ok baseline) (ok observed) tls_layer) ≡ 0) ↔ (
      (a : Tree) × (b : Tree) × (Result.ok baseline ≡ ok a)
      × (Result.ok observed ≡ ok b)
      × (tls_layer ≢ [])
      × All (LayerAgrees trees a b) tls_layer)
exit_code-run_compare_example = exit_code-run_compare trees (ok baseline) (ok observed) tls_layer

-- The last offer is the one that was chosen.
abbrev offers : List (List ℕ)
offers = text "http/1.1" ∷ text "h2" ∷ []

select_alpn-alpn_wire_example :
    select_alpn (text "h2") (alpn_wire offers)
    ≡ (if has (text "h2") offers then agreed (text "h2") else noack)
select_alpn-alpn_wire_example =
    select_alpn-alpn_wire (text "h2") offers (omega arith, (omega arith, tt))

-- A server for two connections, after one has come.
abbrev begun : Server
begun = record { permits = 2; count = 0; running = [] }

Reachable-WithinLimit_example : WithinLimit 2 (accepted begun)
unfolding begin
Reachable-WithinLimit_example =
    Reachable-WithinLimit 2 (accepted begun) (then_step (at_start 15 3600 refl) accept)

-- Evidence in which the field has another value.
abbrev changed : Tree
changed = with_field (text "tls") (with_field (text "a") (word (text "y")) bare) bare

abbrev reported : Comparison trees
reported = record {
  pass = false;
  missing_layers = text "http2" ∷ [];
  differences =
      record { field = text "/tls/a"; baseline = word (text "x"); observed = word (text "y") } ∷ [];
  scope = text "tls" ∷ text "http2" ∷ [];
}

compare-IsReal_example :
    All (IsFound trees baseline changed reported.scope) reported.differences
    × All (IsMissing trees baseline changed reported.scope) reported.missing_layers
unfolding compare layers_loop observation valid tree_find bytes_eq differences walk key_set
    insert_key text_lt has field_or_null unequal tree_equal in_layer
compare-IsReal_example = compare-IsReal trees baseline changed reported.scope reported refl

-- What the tap sees of a write that is cut.
poll_writes-Copies-idle_example :
    Copies
      (λ s. s)
      (λ s. s)
      (poll_writes (λ s. s) (λ s. s) ((1, 22 ∷ 3 ∷ []) ∷ (1, 3 ∷ []) ∷ []) idle)
      (written ((1, 22 ∷ 3 ∷ []) ∷ (1, 3 ∷ []) ∷ []))
poll_writes-Copies-idle_example =
    poll_writes-Copies-idle (λ s. s) (λ s. s) ((1, 22 ∷ 3 ∷ []) ∷ (1, 3 ∷ []) ∷ [])

-- A client that sends a hello and one more byte.
abbrev greeting : Arrived
greeting = record { bytes = hello_record; hello = plain_hello; stream = 23 ∷ [] }

abbrev waiting : Stream
waiting = record {
  State = List ℕ;
  pending = λ s. s;
  poll = λ n s. (take n s, drop n s);
  in_order = take-append-drop;
}

read_hello-replayed_example :
    ((poll_reads waiting (64 ∷ 64 ∷ []) (new waiting (23 ∷ []) hello_record)).0
        ++ unread waiting (poll_reads waiting (64 ∷ 64 ∷ []) (new waiting (23 ∷ []) hello_record)).1
      ≡ hello_record ++ 23 ∷ [])
    × (client_hello (λ s. s) (λ s. s) hello_record ≡ ok (some plain_hello))
    × ((more : ℕ)
        → read_loop
            (λ s. s)
            (λ s. s)
            (length (hello_record ++ 23 ∷ []) + more)
            []
            (hello_record ++ 23 ∷ [])
          ≡ read_hello (λ s. s) (λ s. s) (hello_record ++ 23 ∷ []))
unfolding read_hello read_loop client_hello records_loop complete parse_hello u16 take_bytes v8 u8
    v16 words normalize grease
read_hello-replayed_example =
    read_hello-replayed (λ s. s) (λ s. s) waiting (hello_record ++ 23 ∷ []) (64 ∷ 64 ∷ []) greeting
      (23 ∷ []) refl refl

-- A strict bridge whose origin is given the hello that the client sent.
abbrev packages : Packages
packages = record {
  json = trees;
  fields = λ hello. word hello.ciphers;
  md5 = λ s. s;
  digest = λ s. s;
  encode = λ s. s;
  decode_hex = ok;
  patched = false;
  cipher_name = one_cipher;
  accept = permit;
}

abbrev strict : Serve
strict = record { ca = none; reports = false; strict_tls = true }

abbrev same_hello : Outside
same_hello = record {
  connect = λ calls. ok ((length hello_record, hello_record) ∷ []);
  write_reports = ok tt;
  selected_alpn_protocol = some (text "h2");
  version2 = some 0x0304;
  accept_client = λ calls selected arrived. ok tt;
}

abbrev admitted : Session packages
admitted = record {
  arrived = greeting;
  limitations = [];
  outgoing = plain_hello;
  comparison = record { pass = true; missing_layers = []; differences = []; scope = tls_layer };
  selected = text "h2";
  version = 0x0304;
}

setup-Admitted_example :
    Admitted packages strict bridge same_hello (hello_record ++ 23 ∷ []) admitted
unfolding setup read_hello read_loop client_hello records_loop complete parse_hello u16 take_bytes
    v8 u8 v16 words normalize grease compare layers_loop observation valid tree_find bytes_eq
    tree_equal layers_of evidence ja3 ja3_string list filtered to_decimal digits ja4 version_of
    maximum alpn_of hash to_hex_04 sort insert_sorted retained extensions_text to_decimal_02
    zero_padded differences walk unequal field_or_null key_set insert_key text_lt mirror decode_all
    run_steps steps elem selected unpatched_steps limitations reports_by_kind refused
    extension_order order_loop backend_extensions only_tls13 any poll_writes poll_write holds_hello
    server_builder without_brackets
setup-Admitted_example =
    setup-Admitted packages strict bridge same_hello (hello_record ++ 23 ∷ []) admitted refl
