-- ===== src/Value/BigData.antt =====
-- src/cell_big_data.rs: the data of a value that is split over several cells. `logs` of the structure,
-- which stays empty, is left out.
use notatin.Base.{
  ℕ, zero, suc, ◌+◌, ◌-◌, min, ℤ, Bool, false, none, some, List, [], ◌∷◌, ◌++◌, Bytes, get_from,
  get_range, unsigned_abs,
}
use notatin.Outcome.{Outcome, ok, ok_or, buffer, ◌>>=◌ as bind}
use notatin.Nom.{
  Nom, Parser, IResult, error, failed, ◌>>=◌, ◌>>◌, pure, starts_with, remaining, finish,
}
use notatin.Parser.{FileInfo}
use notatin.Value.{CellKeyValueDataTypes, get_value_bytes}

pub record CellBigData : Type 0 where
  pub size : ℕ
  pub count : ℕ
  pub segment_list_offset_relative : ℕ

abbrev pub big_data_size_threshold : ℕ
big_data_size_threshold = 16344

-- "db".
abbrev pub db : Bytes
db = 0x64 ∷ 0x62 ∷ []

-- Only whether the tag is there is used of its result.
unfoldable pub is_big_data_block : Bytes → Bool
is_big_data_block input = elim (get_from input 4) [
  | some slice ↦ starts_with db slice
  | none ↦ false
]

-- The input of the parser at an absolute offset, or the error of nom past the end.
abbrev pub at_offset : {A : Type 0} → FileInfo → ℕ → Parser A → IResult A
at_offset f offset p = elim (get_from f.buffer offset) [
  | none ↦ failed error
  | some slice ↦ p slice
]

module _ (nom : Nom) where
  unfoldable pub big_data_from_bytes : Parser CellBigData
  big_data_from_bytes = do
    size ← nom.le_i32
    nom.tag db
    count ← nom.le_u16
    segment_list_offset_relative ← nom.le_u32
    pure (record {
      size = unsigned_abs size;
      count = count;
      segment_list_offset_relative = segment_list_offset_relative;
    })

  unfoldable pub parse_big_data_size : FileInfo → ℕ → IResult ℤ
  parse_big_data_size f offset = at_offset f (f.hbin_offset_absolute + offset) nom.le_i32

  -- The input that is left is not used.
  unfoldable pub parse_big_data_offsets : FileInfo → CellBigData → IResult (List ℕ)
  parse_big_data_offsets f big_data =
      at_offset f (f.hbin_offset_absolute + big_data.segment_list_offset_relative)
        (do _size ← nom.le_u32; nom.count nom.le_u32 big_data.count)

  -- The loop over the segments, with what is still to be read.
  unfoldable pub read_segments : FileInfo → List ℕ → ℕ → Outcome Bytes
  unfolding parse_big_data_size
  read_segments f [] data_size_remaining = ok []
  read_segments f (offset ∷ offsets) zero = read_segments f offsets zero
  read_segments f (offset ∷ offsets) (suc remaining) =
      bind (finish (parse_big_data_size f offset)) λ r.
        let size_to_read = min (unsigned_abs r.1) (min (suc remaining) big_data_size_threshold) in
        bind (ok_or (get_range r.0 0 size_to_read) (buffer "get_big_data_bytes")) λ slice.
          bind (read_segments f offsets (suc remaining - size_to_read)) λ rest. ok (slice ++ rest)

  unfoldable pub get_big_data_bytes :
      FileInfo → ℕ → CellKeyValueDataTypes → ℕ → Outcome (Bytes × List ℕ)
  unfolding big_data_from_bytes parse_big_data_offsets read_segments get_value_bytes
  get_big_data_bytes f offset data_type data_size =
      bind (ok_or (get_from f.buffer offset) (buffer "get_big_data_bytes")) λ slice.
        bind (finish (big_data_from_bytes slice)) λ cell.
          bind (finish (parse_big_data_offsets f cell.1)) λ list.
            bind (read_segments f list.1 data_size)
              λ big_data_buffer. ok (get_value_bytes data_type big_data_buffer, list.1)
