-- ===== src/Lib.antt =====
-- fingerprint-bridge: a TLS bridge that mirrors a client's fingerprint and passes its HTTP on, with the
-- public authority replaced by the upstream one. This library models the code under src/ of the
-- repository that reads, rewrites and writes bytes.
--
-- The parts, and how they interact.
-- A connection is one of HTTP/1.1 or HTTP/2. In each direction the bridge reads messages, maps the
-- values of a few headers, and writes everything else as it came. The mapping (src/rewrite.rs) is
-- shared. HTTP/1.1 heads go through `h1_head`; HTTP/2 header blocks go through `HeaderRewriter`, which
-- keeps the client's choices of representation, and `reframe`, which keeps its frames. The TLS hello of
-- the client is read ahead, parsed and replayed; the backend is configured to send a hello like it,
-- which a tap captures and `compare` holds against the first.
--
-- Base      Shared helpers: the native numbers, tests on them, lists, errors, bytes.
-- Std       What the code uses of the standard library on bytes and text: ASCII, split, trim, UTF-8.
--           Text is the list of its bytes in UTF-8. Format: decimal and
--           hexadecimal numbers.
-- Rewrite   src/rewrite.rs. Mapping: `authority`, `Mapping::new`, `is_public`, `map_url`, `value`.
--           Head: `h1_head` and `header_names`.
-- Tls       src/tls.rs. Order: `BACKEND_EXTENSIONS` and `extension_order`. Groups: `group` and `share`.
--           Certificates: `Zstd::decompress`. Mirror: `mirror`, as the list of its calls of the backend
--           and its own checks, which `run_steps` goes through.
-- Crypto    The callbacks of src/crypto_x448.rs (X448) and src/crypto_ed448.rs (Ed448), and `register`
--           of these files and of src/crypto_char2.rs (Registration).
-- Cli       src/main.rs. Run: the exit code of `compare`. Serve: the limits and the accept loop of
--           `serve`, as a step relation. Alpn: the callback that answers a client's offers.
--           Connection: `handle_connection` up to the choice of the bridge, which puts `read_hello`,
--           `mirror`, `Tap`, `compare` and `server_builder` together.
-- Hpack     src/hpack_wire.rs and src/huffman_codes.rs. Integer: `integer`, `skip_string`, `put_int`.
--           HuffmanCodes and Strings: the table and `put_string`. Table: `Table`. Rewriter:
--           `HeaderRewriter::rewrite` as a step on its variables, and `encode_headers`. Receiver: the
--           representations of RFC 7541 as relations, the specification of the rewriter.
-- Http2     src/h2.rs. Frame: `Frame::read` and `Frame::write`. Settings: `settings`. Reframe:
--           `header_parts` and `reframe`. Direction: `PeerLimits` and `direction`. Bridge: `bridge`, as
--           a relation between states, in which both directions take their rounds in any order.
-- H1        src/h1.rs. Lines: `line` and `head`. Framing: `Body` and `framing`. Body: `exact` and `body`.
--           Bridge: both loops of `bridge`; Bridge/Exchange: the loops with the channel between them, as
--           a relation between states.
-- Transport src/transport.rs. Replay: `Replay`. Capture: `HttpCapture`. HttpTap: what `HttpTap` adds to
--           it. ReadHello: `read_hello`. Tap: `Capture` and `Tap`.
-- Fingerprint src/fingerprint.rs. Reader: `grease`, `normalize`, `Reader`, `words`. Hello: `TlsHello` and
--           `parse_hello`. Records: `client_hello`. Syn: `tcp_syn`. Pcap: `pcap_syns`.
--           Ja3 and Ja4: the two digests' texts. Evidence: `evidence`. Json: what is used of serde_json.
--           Compare: `differences` and `compare`.
-- Tests     Concrete runs, and the theorems at concrete inputs.
--
-- Conventions.
-- `Result` is `anyhow::Result` with the error's text. A mutable variable or a `&mut` argument is an
-- argument and a result. A stream is the list of the bytes still to come; its end is the end of the
-- list; what is written is a result. `usize` is a natural number: the sums of the code are bounded by
-- lengths, and `checked_add` is written out. The 64 bits of the Huffman buffer are kept.
--
-- Fuel. Loops that are not structural run on fuel, with the length of the input as the bound, since a
-- round takes at least a byte; `walk` has the depth of the baseline. `gather` has 1024,
-- the bound that the code has itself on the frames of a block.
--
-- Parameters. The `hpack` crate (a decoder, and the static table; where the receiver's view is stated,
-- the table has 61 entries, and the decoder answers with the headers that the representations mean under
-- its own dynamic table), the `url` crate (`parse_url`), a
-- digest and a hexadecimal encoding, MD5, the stream behind a `Replay`, serde_json with the depth of its
-- values and the serialization that serde derives, the ruzstd decoder, the curves of crrl, what the
-- native library answers to a registration, which of its calls the TLS backend takes, and what sockets,
-- handshakes and files answer to a connection. The feature `patched-tls` is a Boolean.
--
-- Not modelled: the order in which tokio polls the two directions of a connection; the TLS
-- protocol, sockets, files, time-outs, the parsing of the command line, logging, the native
-- cryptographic code, and the Brotli and zlib decoders. `count` of `serve` has 64 bits, and the model's
-- number has no bound. What was written before an error is not kept in the models of the loops.
pub mod Base
pub mod Std
pub mod Rewrite
pub mod Hpack
pub mod Http2
pub mod H1
pub mod Transport
pub mod Fingerprint
pub mod Tls
pub mod Crypto
pub mod Cli
mod Tests
