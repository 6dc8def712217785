-- ===== src/Tests/HpackRuns.antt =====
-- HPACK.
use fingerprint_bridge.Base.{
  ℕ, ◌+◌, ◌*◌, ◌-◌, ◌^◌, ◌≤◌, ◌<◌, List, [], ◌∷◌, ◌++◌, ◌≡◌, ◌≢◌, refl, true, false, length, ok,
  err, arith,
}
use fingerprint_bridge.Base.Bytes.{text, bytes_eq}
use fingerprint_bridge.Std.Ascii.{any, strip_prefix, lowercase}
use fingerprint_bridge.Rewrite.Mapping.{value, relevant}
use fingerprint_bridge.Hpack.Integer.{integer, put_int}
use fingerprint_bridge.Hpack.Integer.Shape.{integer-ne-overflow}
use fingerprint_bridge.Hpack.Integer.RoundTrip.{integer-put_int}
use fingerprint_bridge.Hpack.Strings.{put_string, huffman_encode}
use fingerprint_bridge.Hpack.Strings.Padding.{
  codes_width, codes_number, number_of, huffman_encode_padded,
}
use fingerprint_bridge.Hpack.Table.{Table, insert, matches, position, get, find}
use fingerprint_bridge.Hpack.Table.Eviction.{fit, IsValid, insert-fit}
use fingerprint_bridge.Hpack.Rewriter.{
  HeaderRewriter, State, new, start, field, layout, skip_if, check_field, valid_name, valid_value,
  grow, put_field, put_indexed, step, rewrite, rewrite_loop, max_block,
}
use fingerprint_bridge.Hpack.Rewriter.Bounds.{rewrite_loop_ends, rewrite_within}
use fingerprint_bridge.Tests.Inputs.{bridge, parse_plain, get_method, get_crate}

-- RFC 7541, C.4.1.
rfc7541_c4 :
    put_string (text "www.example.com") true
    ≡ 0x8c ∷ 0xf1 ∷ 0xe3 ∷ 0xc2 ∷ 0xe5 ∷ 0xf2 ∷ 0x3a ∷ 0x6b ∷ 0xa0 ∷ 0xab ∷ 0x90 ∷ 0xf4 ∷ 0xff ∷ []
unfolding put_string
rfc7541_c4 = refl

-- RFC 7541, C.1.2.
integer-put_int_example :
    integer ((7 ∷ []) ++ (put_int 1337 (5 * 2 ^ 5) 5 ++ 9 ∷ [])) 1 5
    ≡ ok (1337, 1 + length (put_int 1337 (5 * 2 ^ 5) 5))
integer-put_int_example = integer-put_int (7 ∷ []) (9 ∷ []) 1337 5 5 (omega arith) (omega arith)

integer-ne-overflow_example : integer (0xbf ∷ 0x9a ∷ 0x0a ∷ []) 0 5 ≢ err "HPACK overflow"
integer-ne-overflow_example = integer-ne-overflow (0xbf ∷ 0x9a ∷ 0x0a ∷ []) 0 5 (omega arith)

huffman_encode_padded_example :
    (pad : ℕ) × (pad < 8)
    × (8 * length (huffman_encode (text "no-cache")) ≡ codes_width (text "no-cache") + pad)
    × (number_of 0 (huffman_encode (text "no-cache"))
        ≡ codes_number 0 (text "no-cache") * 2 ^ pad + (2 ^ pad - 1))
huffman_encode_padded_example = huffman_encode_padded (text "no-cache")

abbrev one_entry : Table
one_entry = record { entries = get_method ∷ []; size = 42; limit = 50 }

insert-fit_example :
    (u : Table) × (insert one_entry get_method ≡ ok u)
    × (u.entries ≡ fit 50 (get_method ∷ get_method ∷ []))
    × (u.limit ≡ 50)
    × IsValid u
insert-fit_example =
    insert-fit one_entry get_method (record { counted = refl; within = omega arith })

new-IsValid : IsValid ((new get_crate).outbound)
new-IsValid = record { counted = refl; within = omega arith }

-- One indexed field.
abbrev block : List ℕ
block = 0x82 ∷ []

rewrite_loop_ends_example :
    (rewrite_loop get_crate parse_plain bridge false 3 block 4096 (start get_crate (new get_crate))
      ≡ rewrite_loop get_crate parse_plain bridge false 1 block 4096
          (start get_crate (new get_crate)))
    × ((t : State get_crate)
        → rewrite_loop get_crate parse_plain bridge false 1 block 4096
            (start get_crate (new get_crate))
          ≡ ok t
        → t.p ≡ 1)
rewrite_loop_ends_example =
    rewrite_loop_ends get_crate parse_plain bridge false block 4096 (new get_crate) 2 new-IsValid

-- The rewriter behind the block.
abbrev after : HeaderRewriter get_crate
after = record { inbound = 1; outbound = record { entries = []; size = 0; limit = 4096 } }

rewrite_within_example : IsValid after.outbound × (1 ≤ max_block)
unfolding rewrite rewrite_loop step field layout integer skip_if check_field valid_name any
    valid_value strip_prefix bytes_eq value relevant lowercase grow put_field put_indexed find
    position matches put_int get
rewrite_within_example =
    rewrite_within get_crate parse_plain bridge true block 4096 (new get_crate) after (0x82 ∷ [])
      new-IsValid refl
