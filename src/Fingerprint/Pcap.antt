-- ===== src/Fingerprint/Pcap.antt =====
-- `pcap_syns` of src/fingerprint.rs. The records are given as `TcpSyn` values, where the source turns
-- them into JSON.
use fingerprint_bridge.Base.{
  ℕ, zero, suc, ◌+◌, ◌*◌, List, [], ◌∷◌, ◌++◌, Bool, true, false, not, ◌&&◌, ◌||◌, Option, none,
  some, ◌==◌, leb, if◌then◌else◌, length, take, drop, Result, ok, err, ◌>>=◌, ◌>>◌, ensure,
}
use fingerprint_bridge.Base.Bytes.{bytes_eq}
use fingerprint_bridge.Std.Ascii.{is_empty}
use fingerprint_bridge.Hpack.Rewriter.{byte_at}
use fingerprint_bridge.Http2.Frame.{be32}
use fingerprint_bridge.Fingerprint.Syn.{TcpSyn, be16_at, tcp_syn}

-- The byte order that the first four bytes name.
unfoldable pub little_endian : List ℕ → Result Bool
little_endian magic =
    if bytes_eq magic (0xd4 ∷ 0xc3 ∷ 0xb2 ∷ 0xa1 ∷ [])
      || bytes_eq magic (0x4d ∷ 0x3c ∷ 0xb2 ∷ 0xa1 ∷ [])
    then ok true
    else if bytes_eq magic (0xa1 ∷ 0xb2 ∷ 0xc3 ∷ 0xd4 ∷ [])
        || bytes_eq magic (0xa1 ∷ 0xb2 ∷ 0x3c ∷ 0x4d ∷ [])
    then ok false
    else err "need classic pcap; convert pcapng with editcap -F pcap"

-- `u32at`, of the four bytes from `i` on.
abbrev pub u32at : Bool → List ℕ → ℕ → ℕ
u32at little b i =
    if little
    then be32 (byte_at b (i + 3)) (byte_at b (i + 2)) (byte_at b (i + 1)) (byte_at b i)
    else be32 (byte_at b i) (byte_at b (i + 1)) (byte_at b (i + 2)) (byte_at b (i + 3))

abbrev pub is_ip : ℕ → Bool
is_ip proto = proto == 0x800 || proto == 0x86dd

-- The VLAN tags of an Ethernet frame, on fuel: a tag takes four bytes. The result is `off`, or nothing
-- where the frame holds no IP packet.
unfoldable pub vlan_loop : ℕ → List ℕ → ℕ → ℕ → Result (Option ℕ)
vlan_loop zero packet off proto = err "out of fuel"
vlan_loop (suc fuel) packet off proto = do
  let tagged = (do
    ensure (leb (off + 4) (length packet)) "short VLAN"
    vlan_loop fuel packet (off + 4) (be16_at packet (off + 2)))
  if proto == 0x8100 || proto == 0x88a8
      then tagged
      else if is_ip proto
      then ok (some off)
      else ok none

-- `match link`
unfoldable pub packet_offset : ℕ → List ℕ → Result (Option ℕ)
packet_offset link packet =
    if link == 1
    then (do
      ensure (leb 14 (length packet)) "short Ethernet"
      vlan_loop (length packet) packet 14 (be16_at packet 12))
    else if link == 101
    then ok (some 0)
    else if link == 113
    then (do
      ensure (leb 16 (length packet)) "short SLL"
      if is_ip (be16_at packet 14) then ok (some 16) else ok none)
    else if link == 276
    then (do
      ensure (leb 20 (length packet)) "short SLL2"
      if is_ip (be16_at packet 0) then ok (some 20) else ok none)
    else err "unsupported pcap link type"

module _ (encode : List ℕ → List ℕ) where
  -- What a captured packet adds.
  unfoldable pub packet_syn : ℕ → List ℕ → Result (List TcpSyn)
  packet_syn link packet = do
    found ← packet_offset link packet
    elim found [
      | none ↦ ok []
      | some offset ↦ (do
        syn ← tcp_syn encode (drop offset packet)
        elim syn [ none ↦ ok [] | some s ↦ ok (s ∷ []) ])
    ]

  -- The loop over the records, on fuel: a record takes sixteen bytes or more.
  unfoldable pub pcap_loop : ℕ → Bool → ℕ → List ℕ → Result (List TcpSyn)
  pcap_loop fuel little link [] = ok []
  pcap_loop zero little link (c ∷ cs) = err "out of fuel"
  pcap_loop (suc fuel) little link (c ∷ cs) = do
    ensure (leb 16 (length (c ∷ cs))) "truncated pcap record"
    let n = u32at little (c ∷ cs) 8
    let rest = drop 16 (c ∷ cs)
    ensure (leb n (16 * 1024 * 1024) && leb n (length rest)) "invalid capture size"
    here ← packet_syn link (take n rest)
    more ← pcap_loop fuel little link (drop n rest)
    ok (here ++ more)

  unfoldable pub pcap_syns : List ℕ → Result (List TcpSyn)
  pcap_syns pcap = do
    ensure (leb 24 (length pcap)) "short pcap"
    little ← little_endian (take 4 pcap)
    out ← pcap_loop (length pcap) little (u32at little pcap 20) (drop 24 pcap)
    ensure (not (is_empty out)) "no initial TCP SYN captured"
    ok out
