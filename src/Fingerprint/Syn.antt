-- ===== src/Fingerprint/Syn.antt =====
-- `TcpSyn` and `tcp_syn` of src/fingerprint.rs. `encode` is `hex::encode`, of the `hex` crate.
use fingerprint_bridge.Base.{
  ℕ, zero, suc, ◌+◌, ◌-◌, ◌*◌, bit_and, List, [], ◌∷◌, Bool, false, not, ◌&&◌, Option, none, some,
  ◌==◌, leb, if◌then◌else◌, length, take, drop, Result, ok, err, ◌>>=◌, ◌>>◌, ensure,
}
use fingerprint_bridge.Base.Bits.{shr, bit_set}
use fingerprint_bridge.Base.Bytes.{text}
use fingerprint_bridge.Std.Ascii.{is_empty}
use fingerprint_bridge.Hpack.Rewriter.{slice, byte_at}
use fingerprint_bridge.Http2.Frame.{be16}

pub record TcpSyn : Type 0 where
  pub ip_version : ℕ
  pub ttl : ℕ
  pub df : Bool
  pub window : ℕ
  pub flags : ℕ
  pub options : List (ℕ × List ℕ)

-- `(offset, total, ttl, df)`
pub record Packet : Type 0 where
  pub offset : ℕ
  pub total : ℕ
  pub ttl : ℕ
  pub df : Bool

abbrev pub be16_at : List ℕ → ℕ → ℕ
be16_at b i = be16 (byte_at b i) (byte_at b (i + 1))

unfoldable pub ipv4 : List ℕ → Result (Option Packet)
ipv4 ip = do
  ensure (leb 20 (length ip)) "short IPv4"
  let off = bit_and (byte_at ip 0) 15 * 4
  let total = be16_at ip 2
  ensure (leb 20 off && leb off total && leb total (length ip)) "invalid IPv4 size"
  ensure (bit_and (be16_at ip 6) 0x3fff == 0) "fragmented IPv4 is unsupported"
  if byte_at ip 9 == 6
      then ok (
          some (record {
            offset = off;
            total = total;
            ttl = byte_at ip 8;
            df = bit_set (byte_at ip 6) 6;
          }))
      else ok none

unfoldable pub ipv6 : List ℕ → Result (Option Packet)
ipv6 ip = do
  ensure (leb 40 (length ip)) "short IPv6"
  ensure (byte_at ip 6 == 6) "IPv6 extension headers/non-TCP unsupported"
  let total = 40 + be16_at ip 4
  ensure (leb total (length ip)) "truncated IPv6"
  ok (some (record { offset = 40; total = total; ttl = byte_at ip 7; df = false }))

-- `match version`
abbrev pub packet : List ℕ → Result (Option Packet)
packet ip =
    if shr (byte_at ip 0) 4 == 4
    then ipv4 ip
    else if shr (byte_at ip 0) 4 == 6
    then ipv6 ip
    else err "unsupported IP version"

module _ (encode : List ℕ → List ℕ) where
  -- The value of an option of kind `kind` with `n` bytes.
  unfoldable pub option_value : ℕ → ℕ → List ℕ → Result (List ℕ)
  option_value kind n bytes =
      if kind == 8
      then (do ensure (n == 10) "invalid timestamp option"; ok (text "present"))
      else ok (encode bytes)

  -- The loop over the options, `tcp[p..end]`, on fuel: an option takes a byte or more.
  unfoldable pub options_loop : ℕ → List ℕ → Result (List (ℕ × List ℕ))
  options_loop fuel [] = ok []
  options_loop zero (kind ∷ rest) = err "out of fuel"
  options_loop (suc fuel) (kind ∷ rest) = do
    let skipped = (do more ← options_loop fuel rest; ok ((1, []) ∷ more))
    let valued = (do
      ensure (not (is_empty rest)) "truncated TCP option"
      let n = byte_at rest 0
      let b = drop 1 rest
      ensure (leb 2 n && leb (n - 2) (length b)) "invalid TCP option length"
      shown ← option_value kind n (take (n - 2) b)
      more ← options_loop fuel (drop (n - 2) b)
      ok ((kind, shown) ∷ more))
    if kind == 0 then ok ((0, encode rest) ∷ []) else if kind == 1 then skipped else valued

  -- The TCP segment of a packet.
  unfoldable pub tcp_segment : ℕ → Packet → List ℕ → Result (Option TcpSyn)
  tcp_segment version p tcp = do
    ensure (leb 20 (length tcp)) "short TCP"
    let end = shr (byte_at tcp 12) 4 * 4
    let syn = (do
      ensure (leb 20 end && leb end (length tcp)) "invalid TCP header length"
      options ← options_loop (length tcp) (slice tcp 20 end)
      ok (
          some (record {
            ip_version = version;
            ttl = p.ttl;
            df = p.df;
            window = be16_at tcp 14;
            flags = bit_and (byte_at tcp 12) 15 * 256 + byte_at tcp 13;
            options = options;
          })))
    if bit_and (byte_at tcp 13) 0x12 == 2 then syn else ok none

  unfoldable pub tcp_syn : List ℕ → Result (Option TcpSyn)
  tcp_syn ip = do
    ensure (not (is_empty ip)) "empty IP packet"
    found ← packet ip
    elim found [
      | none ↦ ok none
      | some p ↦ tcp_segment (shr (byte_at ip 0) 4) p (slice ip p.offset p.total)
    ]
