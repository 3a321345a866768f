-- ===== src/Lznt1/Tests.antt =====
-- Runs of the decompression.
use notatin.Base.{◌≡◌, ◌⊎◌, refl, some, [], ◌∷◌, Bytes, get_elem?}
use notatin.Outcome.{ok, panic}
use notatin.Lznt1.{compression_bits, decode_lznt1}
use notatin.Lznt1.Ends.{decode_lznt1_ends}

table_start : get_elem? compression_bits 16 ≡ some 4
unfolding compression_bits
table_start = refl

table_next : get_elem? compression_bits 17 ≡ some 5
unfolding compression_bits
table_next = refl

-- "abc" and a phrase of six bytes that begins three bytes back.
abbrev repeated : Bytes
repeated = 0x05 ∷ 0x80 ∷ 0x08 ∷ 0x61 ∷ 0x62 ∷ 0x63 ∷ 0x03 ∷ 0x20 ∷ 0 ∷ 0 ∷ []

repeated_output :
    decode_lznt1 repeated 0 10
    ≡ ok (0x61 ∷ 0x62 ∷ 0x63 ∷ 0x61 ∷ 0x62 ∷ 0x63 ∷ 0x61 ∷ 0x62 ∷ 0x63 ∷ [])
unfolding decode_lznt1
repeated_output = refl

-- A header whose block is cut short panics.
cut_short : decode_lznt1 (0x05 ∷ 0 ∷ 0x61 ∷ []) 0 3 ≡ panic
unfolding decode_lznt1
cut_short = refl

decode_lznt1_ends_example :
    ((output : Bytes) × (decode_lznt1 repeated 0 10 ≡ ok output))
    ⊎ (decode_lznt1 repeated 0 10 ≡ panic)
decode_lznt1_ends_example = decode_lznt1_ends repeated 0 10
