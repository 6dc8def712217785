-- ===== src/Hpack/Integer.antt =====
-- `integer`, `skip_string` and `put_int` of src/hpack_wire.rs. A byte is a number below 256, and a
-- `usize` has 64 bits. Where the source moves a cursor `p` over the block, the model walks the
-- bytes from `p` on, so that a loop is a structural recursion, and returns the new cursor.
pub mod Shape
pub mod RoundTrip
pub mod Prefix
use fingerprint_bridge.Base.{
  ℕ, zero, suc, ◌+◌, ◌-◌, ◌*◌, ◌/◌, ◌%◌, ◌^◌, List, [], ◌∷◌, ltb, leb, ◌==◌, if◌then◌else◌, bit_or,
  length, drop, Result, ok, err, ◌>>=◌, ◌>>◌, ensure,
}
use fingerprint_bridge.Base.Bits.{low_bits, bit_set}

-- The loop of `integer` over the bytes from `p` on.
pub integer_loop : List ℕ → ℕ → ℕ → ℕ → Result (ℕ × ℕ)
integer_loop [] p n shift = err "invalid HPACK integer"
integer_loop (c ∷ rest) p n shift =
    let sum = n + low_bits c 7 * 2 ^ shift in
    let again = integer_loop rest (p + 1) sum (shift + 7) in
    if leb shift 28
    then (if ltb sum (2 ^ 64)
        then (if bit_set c 7 then again else ok (sum, p + 1))
        else err "HPACK overflow")
    else err "invalid HPACK integer"

pub integer_from : List ℕ → ℕ → ℕ → Result (ℕ × ℕ)
integer_from [] p bits = err "truncated HPACK integer"
integer_from (c ∷ rest) p bits =
    let n = low_bits c bits in
    if ltb n (2 ^ bits - 1) then ok (n, p + 1) else integer_loop rest (p + 1) n 0

-- The number that starts at `p`, and the position behind it.
unfoldable pub integer : List ℕ → ℕ → ℕ → Result (ℕ × ℕ)
unfolding integer_loop integer_from
integer b p bits = integer_from (drop p b) p bits

-- The position behind the string that starts at `p`.
unfoldable pub skip_string : List ℕ → ℕ → Result ℕ
skip_string b p = do
  (n, q) ← integer b p 7
  ensure (leb n (length b - q)) "truncated HPACK string"
  ok (q + n)

-- `while n >= 128 { .. } out.push(n as u8)`, on fuel: each round divides `n`.
put_groups : ℕ → ℕ → List ℕ
put_groups zero n = n % 256 ∷ []
put_groups (suc fuel) n =
    let more = put_groups fuel (n / 128) in
    if leb 128 n then bit_or (low_bits (n % 256) 7) 128 ∷ more else n % 256 ∷ []

-- The bytes that `put_int` appends.
unfoldable pub put_int : ℕ → ℕ → ℕ → List ℕ
unfolding put_groups
put_int n prefix bits =
    let max = 2 ^ bits - 1 in
    if ltb n max
    then bit_or prefix (n % 256) ∷ []
    else bit_or prefix (max % 256) ∷ put_groups (n - max) (n - max)
