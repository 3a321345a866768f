-- ===== src/Value/Read/Big.antt =====
-- Values that are split over several cells, written and read back.
use notatin.Base.{
  ℕ, zero, suc, ◌+◌, ◌-◌, ◌^◌, ◌≤◌, ◌<◌, min, ◌≡◌, refl, ap, sym, ◌∙◌, true, List, [], ◌∷◌, ◌++◌,
  map, some, Bytes, length, length-append, to_le, get_from, get_range, arith, unsigned_abs,
  signed32, lt→ltb, le→leb, ◌==◌, bit_and,
}
use notatin.Base.Slices.{get_range_front}
use notatin.Base.Bits.{bit_and-below}
use notatin.Outcome.{ok, ok_or, ◌>>=◌}
use notatin.Log.{Logs}
use notatin.Nom.{Nom, Parser, done, finish, ◌>>=◌ as then, ◌>>◌ as next}
use notatin.Nom.Encode.{le_u32-to_le, le_u16-to_le, le_i32-to_le, cell_size, cell_size_abs}
use notatin.Parser.{FileInfo}
use notatin.SubKeyList.Roundtrip.{AllGood, encode_items, count-encode_items}
use notatin.Value.{CellKeyValueDataTypes, get_value_bytes}
use notatin.Value.BigData.{
  CellBigData, at_offset, big_data_size_threshold, db, parse_big_data_size, parse_big_data_offsets,
  big_data_from_bytes, read_segments, get_big_data_bytes, is_big_data_block,
}
use notatin.Value.Read.{read_value_bytes_direct, big_data_or_warning, data_is_resident_mask}

-- A segment: its offset, the size of its cell, and the bytes of the value that it holds.
pub record Segment : Type 0 where
  pub offset : ℕ
  pub size : ℕ
  pub chunk : Bytes

abbrev pub joined : List Segment → Bytes
joined [] = []
joined (s ∷ ss) = s.chunk ++ joined ss

-- The file holds a cell in use for the segment, which begins with the chunk.
abbrev pub Stored : FileInfo → Segment → Bytes → Type 0
Stored f s rest =
    get_from f.buffer (f.hbin_offset_absolute + s.offset)
    ≡ some (cell_size s.size ++ (s.chunk ++ rest))

-- The segments hold `n` bytes, each as many as its cell, the limit and what is left allow.
abbrev pub HoldsSegments : FileInfo → List Segment → ℕ → Type 0
HoldsSegments f [] n = n ≡ 0
HoldsSegments f (s ∷ ss) n =
    ((rest : Bytes) × Stored f s rest)
    × (0 < n)
    × (0 < s.size)
    × (s.size ≤ 2 ^ 31)
    × (length s.chunk ≡ min s.size (min n big_data_size_threshold))
    × HoldsSegments f ss (n - length s.chunk)

abbrev pub offsets : List Segment → List ℕ
offsets ss = map (λ (s : Segment). s.offset) ss

at_offset-inside :
    {A : Type 0} (f : FileInfo) (offset : ℕ) (slice : Bytes) (p : Parser A)
    → get_from f.buffer offset ≡ some slice
    → at_offset f offset p ≡ p slice
at_offset-inside f offset slice p e = rw (e, at_offset) refl

module _ (nom : Nom) (f : FileInfo) where
  parse_size-Stored :
      (s : Segment) (rest : Bytes)
      → Stored f s rest
      → 0 < s.size
      → parse_big_data_size nom f s.offset ≡ done (s.chunk ++ rest) (signed32 (2 ^ 32 - s.size))
  unfolding parse_big_data_size
  parse_size-Stored s rest stored pos =
      at_offset-inside f (f.hbin_offset_absolute + s.offset) _ nom.le_i32 stored
      ∙ le_i32-to_le nom (2 ^ 32 - s.size) (s.chunk ++ rest) (omega arith)

  -- The chunk that is read of a stored segment.
  read_chunk :
      (s : Segment) (rest : Bytes) (n : ℕ)
      → 0 < s.size
      → s.size ≤ 2 ^ 31
      → length s.chunk ≡ min s.size (min (suc n) big_data_size_threshold)
      → (min (unsigned_abs (signed32 (2 ^ 32 - s.size))) (min (suc n) big_data_size_threshold)
          ≡ length s.chunk)
        × (get_range (s.chunk ++ rest) 0 (length s.chunk) ≡ some s.chunk)
  read_chunk s rest n pos fits sized = (
    ap (λ t. min t (min (suc n) big_data_size_threshold)) (cell_size_abs s.size pos fits)
        ∙ sym sized,
    get_range_front s.chunk rest,
  )

  read_segments-HoldsSegments :
      (ss : List Segment) (n : ℕ)
      → HoldsSegments f ss n
      → read_segments nom f (offsets ss) n ≡ ok (joined ss)
  unfolding read_segments
  read_segments-HoldsSegments [] n h = refl
  read_segments-HoldsSegments (s ∷ ss) zero h = absurd (omega (arith, h.1))
  read_segments-HoldsSegments (s ∷ ss) (suc n) ((rest, stored), pos, sized, fits, part, more) =
      let (size, chunk) = read_chunk s rest n sized fits part in
      rw (parse_size-Stored s rest stored sized, read_segments, finish, ◌>>=◌)
        (rw (size, chunk, ok_or, ◌>>=◌)
          (rw (read_segments-HoldsSegments ss (suc n - length s.chunk) more, ◌>>=◌) refl))

  pub length-joined : (ss : List Segment) (n : ℕ) → HoldsSegments f ss n → length (joined ss) ≡ n
  length-joined [] n h = sym h
  length-joined (s ∷ ss) n (stored, pos, sized, fits, part, more) =
      omega (arith, length-append s.chunk (joined ss), length-joined ss (n - length s.chunk) more)

  -- The cell of the big data and its list of offsets.
  abbrev pub big_data_cell : ℕ → List Segment → ℕ → Bytes → Bytes
  big_data_cell size ss list rest =
      cell_size size ++ (0x64 ∷ 0x62 ∷ (to_le 2 (length (offsets ss)) ++ (to_le 4 list ++ rest)))

  abbrev pub list_cell : ℕ → List Segment → Bytes → Bytes
  list_cell size ss rest = to_le 4 size ++ (encode_items (to_le 4) (offsets ss) ++ rest)

  big_data_from_bytes-cell :
      (size : ℕ) (ss : List Segment) (list : ℕ) (rest : Bytes)
      → 0 < size
      → size ≤ 2 ^ 31
      → length (offsets ss) < 2 ^ 16
      → list < 2 ^ 32
      → big_data_from_bytes nom (big_data_cell size ss list rest)
        ≡ done rest (record {
          size = size;
          count = length (offsets ss);
          segment_list_offset_relative = list;
        })
  unfolding big_data_from_bytes
  big_data_from_bytes-cell size ss list rest pos fits few small =
      rw
        (
          le_i32-to_le nom (2 ^ 32 - size)
              (0x64 ∷ 0x62 ∷ (to_le 2 (length (offsets ss)) ++ (to_le 4 list ++ rest)))
              (omega arith),
          nom.tag_lem db (0x64 ∷ 0x62 ∷ (to_le 2 (length (offsets ss)) ++ (to_le 4 list ++ rest))),
          le_u16-to_le nom (length (offsets ss)) (to_le 4 list ++ rest) few,
          le_u32-to_le nom list rest small,
          big_data_from_bytes,
          then,
          next,
        )
        (ap
          (λ t.
            done rest (record {
              size = t;
              count = length (offsets ss);
              segment_list_offset_relative = list;
            }))
          (cell_size_abs size pos fits))

  parse_offsets-list :
      (cell : CellBigData) (list size : ℕ) (ss : List Segment) (rest : Bytes)
      → size < 2 ^ 32
      → AllGood (λ o. o < 2 ^ 32) (offsets ss)
      → cell.segment_list_offset_relative ≡ list
      → cell.count ≡ length (offsets ss)
      → get_from f.buffer (f.hbin_offset_absolute + list) ≡ some (list_cell size ss rest)
      → parse_big_data_offsets nom f cell ≡ done rest (offsets ss)
  unfolding parse_big_data_offsets
  parse_offsets-list cell list size ss rest fits good at counted stored =
      let here : get_from f.buffer (f.hbin_offset_absolute + cell.segment_list_offset_relative)
          ≡ some (list_cell size ss rest) =
        ap (λ t. get_from f.buffer (f.hbin_offset_absolute + t)) at ∙ stored in
      at_offset-inside f (f.hbin_offset_absolute + cell.segment_list_offset_relative) _ _ here
      ∙ rw
          (
            le_u32-to_le nom size (encode_items (to_le 4) (offsets ss) ++ rest) fits,
            counted,
            count-encode_items nom (to_le 4) nom.le_u32 (λ o. o < 2 ^ 32)
                (λ o rest h. le_u32-to_le nom o rest h) (offsets ss) rest good,
            then,
          )
          refl

  is_big_data_block-cell :
      (size : ℕ) (ss : List Segment) (list : ℕ) (rest : Bytes)
      → is_big_data_block (big_data_cell size ss list rest) ≡ true
  unfolding is_big_data_block
  is_big_data_block-cell size ss list rest =
      rw (le→leb 4 (length (big_data_cell size ss list rest)) (omega arith), is_big_data_block) refl

  get_big_data_bytes-segments :
      (offset size list list_size n : ℕ) (ss : List Segment) (rest list_rest : Bytes)
      → (t : CellKeyValueDataTypes) → 0 < size
      → size ≤ 2 ^ 31
      → length (offsets ss) < 2 ^ 16
      → list < 2 ^ 32
      → list_size < 2 ^ 32
      → AllGood (λ o. o < 2 ^ 32) (offsets ss)
      → get_from f.buffer offset ≡ some (big_data_cell size ss list rest)
      → get_from f.buffer (f.hbin_offset_absolute + list) ≡ some (list_cell list_size ss list_rest)
      → HoldsSegments f ss n
      → get_big_data_bytes nom f offset t n ≡ ok (get_value_bytes t (joined ss), offsets ss)
  unfolding get_big_data_bytes
  get_big_data_bytes-segments offset size list list_size n ss rest list_rest t pos size_fits few
        list_fits list_size_fits good cell_stored list_stored held =
      rw (cell_stored, get_big_data_bytes, ok_or, ◌>>=◌)
        (rw (big_data_from_bytes-cell size ss list rest pos size_fits few list_fits, finish, ◌>>=◌)
          (rw
            (
              parse_offsets-list
                  (record {
                    size = size;
                    count = length (offsets ss);
                    segment_list_offset_relative = list;
                  })
                  list list_size ss list_rest list_size_fits good refl refl list_stored,
              finish,
              read_segments-HoldsSegments ss n held,
              ◌>>=◌,
            )
            refl))

  -- A value of more than 16344 and fewer than 2 ^ 31 bytes whose segments the file holds, with the
  -- cell that lists them, is read whole, cut to the length of its data type, and nothing is logged. The
  -- offsets that are returned as `data_offsets_absolute` are those of the list as they are stored,
  -- relative to the hive bins: their begin is not added.
  pub read_value_bytes_direct-segments :
      (file_offset offset size list list_size n : ℕ) (ss : List Segment) (rest list_rest : Bytes)
      → (t : CellKeyValueDataTypes) (logs : Logs) → big_data_size_threshold < n
      → n < 2 ^ 31
      → 0 < size
      → size ≤ 2 ^ 31
      → length (offsets ss) < 2 ^ 16
      → list < 2 ^ 32
      → list_size < 2 ^ 32
      → AllGood (λ o. o < 2 ^ 32) (offsets ss)
      → get_from f.buffer (offset + f.hbin_offset_absolute) ≡ some (big_data_cell size ss list rest)
      → get_from f.buffer (f.hbin_offset_absolute + list) ≡ some (list_cell list_size ss list_rest)
      → HoldsSegments f ss n
      → (read_value_bytes_direct nom file_offset n offset t f logs
          ≡ ok (record {
            value_bytes = get_value_bytes t (joined ss);
            data_offsets_absolute = offsets ss;
            logs = logs;
          }))
        × (length (joined ss) ≡ n)
  unfolding read_value_bytes_direct get_big_data_bytes big_data_or_warning is_big_data_block
  read_value_bytes_direct-segments file_offset offset size list list_size n ss rest list_rest t logs
        large fits pos size_fits few list_fits list_size_fits good cell_stored list_stored held =
      let free : (bit_and n data_is_resident_mask == 0) ≡ true =
        ap (λ t. t == 0) (bit_and-below 31 n fits) in
      (
        rw
            (
              free,
              cell_stored,
              lt→ltb big_data_size_threshold n large,
              is_big_data_block-cell size ss list rest,
              get_big_data_bytes-segments (offset + f.hbin_offset_absolute) size list list_size n ss
                  rest list_rest t pos size_fits few list_fits list_size_fits good cell_stored
                  list_stored held,
              read_value_bytes_direct,
              big_data_or_warning,
            )
            refl,
        length-joined ss n held,
      )
