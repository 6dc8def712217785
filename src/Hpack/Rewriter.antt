-- ===== src/Hpack/Rewriter.antt =====
-- `HeaderRewriter` and `encode_headers` of src/hpack_wire.rs. The `hpack` crate, which decodes what
-- comes in, is a parameter.
pub mod Step
pub mod Bounds
use fingerprint_bridge.Base.{
  ℕ, zero, suc, ◌+◌, ◌-◌, ◌*◌, List, [], ◌∷◌, ◌++◌, Bool, true, false, not, ◌&&◌, ◌||◌, Option,
  none, some, ltb, leb, ◌==◌, if◌then◌else◌, length, take, drop, min, max, bit_and, Result, ok, err,
  ◌>>=◌, ◌>>◌, ensure,
}
use fingerprint_bridge.Base.Bits.{bit_set}
use fingerprint_bridge.Base.Bytes.{text, bytes_eq}
use fingerprint_bridge.Std.Ascii.{is_empty, any, is_upper, strip_prefix, is_some}
use fingerprint_bridge.Rewrite.Mapping.{Url, Mapping, value}
use fingerprint_bridge.Hpack.Integer.{integer, skip_string, put_int}
use fingerprint_bridge.Hpack.Strings.{put_string}
use fingerprint_bridge.Hpack.Table.{Header, Table, evict, insert, find}

-- `h2::MAX_BLOCK`
abbrev pub max_block : ℕ
max_block = 1024 * 1024

-- The `hpack` crate: a decoder with a table of its own, and the static table.
pub record HpackCrate : Type 1 where
  pub Decoder : Type 0
  pub fresh : Decoder
  pub decode : Decoder → List ℕ → Result (Decoder × List Header)
  pub static_table : List Header

-- `b[start..end]`
abbrev pub slice : List ℕ → ℕ → ℕ → List ℕ
slice b start end = take (end - start) (drop start b)

-- `b[i]`, where the source has made sure that there is such a byte.
abbrev pub byte_at : List ℕ → ℕ → ℕ
byte_at b i = elim (drop i b) [ [] ↦ 0 | c ∷ rest ↦ c ]

-- The checks on a decoded name and value.
unfoldable pub valid_name : List ℕ → Bool
valid_name name = not (is_empty name) && not (any (λ c. is_upper c || leb c 32 || c == 127) name)

unfoldable pub valid_value : List ℕ → Bool
valid_value bytes = not (any (λ c. c == 13 || c == 10 || c == 0) bytes)

abbrev pub is_pseudo : List ℕ → Bool
is_pseudo name = is_some (strip_prefix (text ":") name)

-- How a field is represented, and where its parts stand in the block.
pub record Layout : Type 0 where
  pub indexed : Bool
  pub incremental : Bool
  pub bits : ℕ
  pub index : ℕ
  pub name_start : ℕ
  pub value_start : ℕ
  pub end : ℕ

-- `skip_string(block, &mut p)?` under a test.
unfoldable pub skip_if : Bool → List ℕ → ℕ → Result ℕ
skip_if test block p = if test then skip_string block p else ok p

unfoldable pub layout : List ℕ → ℕ → Result Layout
layout block p = do
  let c = byte_at block p
  let indexed = bit_set c 7
  let incremental = not indexed && bit_set c 6
  let bits = if indexed then 7 else if incremental then 6 else 4
  (index, name_start) ← integer block p bits
  value_start ← skip_if (not indexed && index == 0) block name_start
  end ← skip_if (not indexed) block value_start
  ok (record {
    indexed = indexed;
    incremental = incremental;
    bits = bits;
    index = index;
    name_start = name_start;
    value_start = value_start;
    end = end;
  })

-- `if incremental { self.outbound.insert(..) }`
unfoldable pub grow : Layout → Table → Header → Result Table
grow l t h = if l.incremental then insert t h else ok t

module _ (crate : HpackCrate) where
  open crate use {Decoder, fresh, decode, static_table}

  pub record HeaderRewriter : Type 0 where
    pub inbound : Decoder
    pub outbound : Table

  abbrev pub new : HeaderRewriter
  new = record { inbound = fresh; outbound = record { entries = []; size = 0; limit = 4096 } }

  -- The variables of `rewrite`.
  pub record State : Type 0 where
    pub rewriter : HeaderRewriter
    pub p : ℕ
    pub total : ℕ
    pub authority : ℕ
    pub fields : Bool
    pub regular : Bool
    pub method : Bool
    pub out : List ℕ

  -- The variables as `rewrite` declares them.
  abbrev pub start : HeaderRewriter → State
  start r = record {
    rewriter = r;
    p = 0;
    total = 0;
    authority = 0;
    fields = false;
    regular = false;
    method = false;
    out = [];
  }

  -- What replaces an indexed field, whose bytes were `raw`.
  unfoldable pub put_indexed : Table → ℕ → List ℕ → List ℕ → List ℕ → List ℕ
  put_indexed outbound index name mapped raw =
      let target = find static_table outbound index name (some mapped) in
      let by_name = find static_table outbound 0 name none in
      if target == index
      then raw
      else if not (target == 0)
      then put_int target 0x80 7
      else put_int by_name 0 4
        ++ ((if by_name == 0 then put_string name false else []) ++ put_string mapped false)

  -- What replaces the name of a literal field with the first byte `c`: `raw` are the bytes up to the
  -- value, and `raw_name` those of the name in it.
  unfoldable pub put_name : Table → ℕ → Bool → ℕ → ℕ → List ℕ → List ℕ → List ℕ → List ℕ
  put_name outbound c incremental bits index name raw raw_name =
      let target = if index == 0 then 0 else find static_table outbound index name none in
      if target == index
      then raw
      else put_int target (bit_and c (if incremental then 0xc0 else 0xf0)) bits
        ++ (if target == 0 then (if index == 0 then raw_name else put_string name false) else [])

  -- What replaces the value of a literal field, whose bytes were `raw`.
  unfoldable pub put_value : List ℕ → List ℕ → List ℕ → List ℕ
  put_value bytes mapped raw =
      if bytes_eq mapped bytes then raw else put_string mapped (bit_set (byte_at raw 0) 7)

  -- The bytes written for the field at `p`.
  unfoldable pub put_field : List ℕ → ℕ → Layout → Table → Header → List ℕ → List ℕ
  put_field block p l outbound (name, bytes) mapped =
      if l.indexed
      then put_indexed outbound l.index name mapped (slice block p l.end)
      else put_name outbound (byte_at block p) l.incremental l.bits l.index name
          (slice block p l.value_start) (slice block l.name_start l.value_start)
        ++ put_value bytes mapped (slice block l.value_start l.end)

  -- A dynamic table size update, at the position `s.p`.
  unfoldable pub table_update : List ℕ → ℕ → State → Result State
  table_update block limit s = do
    ensure (not s.fields) "HPACK table update after fields"
    (n, p) ← integer block s.p 5
    ensure (leb n (min limit 65536)) "HPACK table exceeds advertised/configured limit"
    (inbound, ignored) ← decode s.rewriter.inbound (slice block s.p p)
    outbound ← evict (record s.rewriter.outbound { limit = n })
    ok (record s {
      rewriter = record { inbound = inbound; outbound = outbound };
      p = p;
      out = s.out ++ slice block s.p p;
    })

  -- `headers.remove(0)` of a vector with one element.
  abbrev pub only : List Header → Result Header
  only [] = err "invalid HPACK field"
  only (h ∷ []) = ok h
  only (h ∷ more) = err "invalid HPACK field"

  module _ (parse_url : List ℕ → Result Url) (m : Mapping) (response : Bool) where
    -- The checks on a decoded field, and its mapped value. The pieces of state that they read and
    -- write come back changed.
    unfoldable pub check_field : State → Header → Result (State × List ℕ)
    check_field s (name, bytes) = do
      ensure (valid_name name) "invalid HTTP/2 name"
      ensure (valid_value bytes) "invalid HTTP/2 value"
      ensure (not (is_pseudo name && s.regular)) "pseudo-header after regular header"
      ensure (not (bytes_eq name (text ":method") && bytes_eq bytes (text "CONNECT")))
          "HTTP/2 CONNECT unsupported"
      mapped ← value parse_url m name bytes response
      let total = s.total + (length name + max (length mapped) (length bytes) + 32)
      ensure (leb total max_block) "decoded headers too large"
      ok (
        record s {
          total = total;
          authority = if bytes_eq name (text ":authority") then s.authority + 1 else s.authority;
          regular = s.regular || not (is_pseudo name);
          method = s.method || bytes_eq name (text ":method");
        },
        mapped,
      )

    -- A field, from the position `s.p` on.
    unfoldable pub field : List ℕ → State → Result State
    field block s = do
      l ← layout block s.p
      (inbound, headers) ← decode s.rewriter.inbound (slice block s.p l.end)
      h ← only headers
      (t, mapped) ← check_field s h
      let written = put_field block s.p l s.rewriter.outbound h mapped
      grown ← grow l s.rewriter.outbound (h.0, mapped)
      ensure (leb (length (s.out ++ written)) max_block) "rewritten header block too large"
      ok (record t {
        rewriter = record { inbound = inbound; outbound = grown };
        p = l.end;
        fields = true;
        out = s.out ++ written;
      })

    unfoldable pub step : List ℕ → ℕ → State → Result State
    step block limit s =
        if bit_and (byte_at block s.p) 0xe0 == 0x20
        then table_update block limit s
        else field block s

    -- `while p < block.len()`, on fuel: each round moves `p` on.
    unfoldable pub rewrite_loop : ℕ → List ℕ → ℕ → State → Result State
    rewrite_loop zero block limit s = ok s
    rewrite_loop (suc fuel) block limit s =
        let more = step block limit s >>= rewrite_loop fuel block limit in
        if ltb s.p (length block) then more else ok s

    unfoldable pub rewrite : HeaderRewriter → List ℕ → ℕ → Result (HeaderRewriter × List ℕ)
    rewrite r block limit = do
      ensure (leb (length block) max_block) "header block too large"
      s ← rewrite_loop (length block) block limit (start r)
      ensure (response || not s.method || s.authority == 1) "exactly one :authority required"
      ok (s.rewriter, s.out)

-- `encode_headers`
unfoldable pub encode_headers : List Header → List ℕ
encode_headers [] = []
encode_headers ((name, bytes) ∷ headers) =
    0x10 ∷ (put_string name false ++ (put_string bytes false ++ encode_headers headers))
