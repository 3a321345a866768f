-- ===== src/Lznt1.antt =====
-- src/util.rs, the decompression `decode_lznt1` with its table. An index or a slice past the end, and an
-- index below 0, panic; `&` and `>>` with the masks of the source are remainders and quotients.
pub mod Ends
pub mod Tests
use notatin.Base.{
  ℕ, zero, suc, ◌+◌, ◌-◌, ◌*◌, ◌/◌, ◌%◌, ◌^◌, Bool, true, false, Option, List, [], ◌∷◌, ◌++◌, Bytes,
  get_elem?, get_range, from_le, ltb, leb, ◌==◌, if◌then◌else◌,
}
use notatin.Outcome.{Outcome, ok, panic, no_fuel, expect, ◌>>=◌}

-- The loop of `calc_compression_bits`, from the entry `x` on.
unfoldable pub compression_loop : ℕ → ℕ → ℕ → ℕ → Bytes
compression_loop zero x y offset_bits = []
compression_loop (suc n) x y offset_bits =
    (4 + offset_bits)
    ∷ compression_loop n (suc x) (if x == y then y * 2 else y)
        (if x == y then suc offset_bits else offset_bits)

unfoldable pub compression_bits : Bytes
unfolding compression_loop
compression_bits = compression_loop 4096 0 0x10 0

-- The variables of the loops.
pub record Progress : Type 0 where
  pub decompressed : Bytes
  pub source_index : ℕ
  pub dest_index : ℕ

-- The loop that repeats earlier output.
unfoldable pub copy_back : ℕ → ℕ → Progress → Outcome Progress
copy_back zero dest_back_addr p = ok p
copy_back (suc n) dest_back_addr p = do
  byte ← expect (get_elem? p.decompressed dest_back_addr)
  copy_back n (suc dest_back_addr)
      (record p { decompressed = p.decompressed ++ byte ∷ []; dest_index = suc p.dest_index })

module _ (source : Bytes) (source_offset : ℕ) where
  -- `u16::from_le_bytes` of two bytes.
  unfoldable pub read_u16 : ℕ → Outcome ℕ
  read_u16 index = do bytes ← expect (get_range source index (index + 2)); ok (from_le bytes)

  unfoldable pub literal_token : Progress → Outcome Progress
  literal_token p = do
    byte ← expect (get_elem? source (source_offset + p.source_index))
    ok (record {
      decompressed = p.decompressed ++ byte ∷ [];
      source_index = suc p.source_index;
      dest_index = suc p.dest_index;
    })

  unfoldable pub phrase_token : ℕ → Progress → Outcome Progress
  unfolding read_u16 copy_back compression_bits
  phrase_token dest_sub_block_start p = do
    bits ← expect (get_elem? compression_bits (p.dest_index - dest_sub_block_start))
    let length_bits = 16 - bits
    token ← read_u16 (p.source_index + source_offset)
    elim (ltb (token / 2 ^ length_bits) p.dest_index) [
      | false ↦ panic
      | true ↦
          copy_back (token % 2 ^ length_bits + 3) (p.dest_index - token / 2 ^ length_bits - 1)
            (record p { source_index = p.source_index + 2 })
    ]

  -- The loop over the tokens of one tag.
  unfoldable pub token_loop : ℕ → ℕ → ℕ → ℕ → Progress → Outcome Progress
  unfolding literal_token phrase_token
  token_loop zero tag src_sub_block_end dest_sub_block_start p = ok p
  token_loop (suc n) tag src_sub_block_end dest_sub_block_start p =
      elim (leb src_sub_block_end p.source_index) [
        | true ↦ ok p
        | false ↦ do
          q ← elim (tag % 2) [
            | zero ↦ literal_token p
            | suc _ ↦ phrase_token dest_sub_block_start p
          ]
          token_loop n (tag / 2) src_sub_block_end dest_sub_block_start q
      ]

  -- The loop over the tags of a compressed sub block. Each round reads the byte of a tag.
  unfoldable pub tag_loop : ℕ → ℕ → ℕ → Progress → Outcome Progress
  unfolding token_loop
  tag_loop zero src_sub_block_end dest_sub_block_start p = no_fuel
  tag_loop (suc fuel) src_sub_block_end dest_sub_block_start p =
      elim (ltb p.source_index src_sub_block_end) [
        | false ↦ ok p
        | true ↦ do
          tag ← expect (get_elem? source (source_offset + p.source_index))
          q ←
              token_loop 8 tag src_sub_block_end dest_sub_block_start
                (record p { source_index = suc p.source_index })
          tag_loop fuel src_sub_block_end dest_sub_block_start q
      ]

  unfoldable pub stored_block : ℕ → Progress → Outcome Progress
  stored_block block_size p = do
    bytes ← expect (
        get_range source (source_offset + p.source_index)
          (source_offset + p.source_index + block_size))
    ok (record {
      decompressed = p.decompressed ++ bytes;
      source_index = p.source_index + block_size;
      dest_index = p.dest_index + block_size;
    })

  unfoldable pub compressed_block : ℕ → Progress → Outcome Progress
  unfolding tag_loop
  compressed_block block_size p =
      tag_loop (suc block_size) (p.source_index + block_size) p.dest_index p

  -- The two kinds of sub blocks, by the flag 0x8000 of the header.
  abbrev pub sub_block : ℕ → Progress → Outcome Progress
  sub_block header p =
      if ltb header 0x8000
      then stored_block (header % 0x1000 + 1) p
      else compressed_block (header % 0x1000 + 1) p

  -- The outer loop. A header of 0 ends it.
  unfoldable pub block_loop : ℕ → ℕ → Progress → Outcome Progress
  unfolding read_u16 stored_block compressed_block
  block_loop zero source_length p = no_fuel
  block_loop (suc fuel) source_length p =
      elim (ltb (p.source_index + source_offset) source_length) [
        | false ↦ ok p
        | true ↦ do
          header ← read_u16 (p.source_index + source_offset)
          elim header [
            | zero ↦ ok (record p { source_index = p.source_index + 2 })
            | suc h ↦ do
              q ← sub_block (suc h) (record p { source_index = p.source_index + 2 })
              block_loop fuel source_length q
          ]
      ]

  unfoldable pub decode_lznt1 : ℕ → Outcome Bytes
  unfolding block_loop
  decode_lznt1 source_length = do
    p ←
        block_loop (suc source_length) source_length
          (record { decompressed = []; source_index = 0; dest_index = 0 })
    ok p.decompressed
