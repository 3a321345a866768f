-- ===== src/Value/Tests.antt =====
-- Runs of the reading of values.
use notatin.Base.{
  ℕ, ◌+◌, ◌-◌, ◌^◌, ◌≡◌, refl, ℤ, some, none, List, [], ◌∷◌, ◌++◌, Bytes, length, drop, replicate,
  length-replicate, from_le, arith,
}
use notatin.Outcome.{ok}
use notatin.Log.{Logs, empty, lit, add, warning_conversion}
use notatin.Nom.{done}
use notatin.Nom.Reader.{reader}
use notatin.Parser.{FileInfo}
use notatin.Value.{
  CellValue, from_u32, reg_dword, reg_sz, reg_bin, string, binary, get_value_content,
  get_value_bytes, reg_composite_guid,
}
use notatin.Value.Cell.{CellKeyValue, cell_key_value, no_versions, fields, allocated, from_bytes}
use notatin.Value.Read.{read_value_bytes_direct, get_content, with_warnings}
use notatin.Value.Read.Small.{
  resident_size, read_value_bytes_direct-resident, read_value_bytes_direct-cell,
}
use notatin.Value.Read.Big.{Segment, joined, offsets, read_value_bytes_direct-segments}
use notatin.Utf16.{from_utf16_le_string}
use notatin.SubKeyList.Roundtrip.{encode_items}
use notatin.Value.Content.{get_content_total}

types_by_number : from_u32 0x110 ≡ some reg_composite_guid
unfolding from_u32
types_by_number = refl

no_such_type : from_u32 0x0c ≡ none
unfolding from_u32
no_such_type = refl

too_short :
    get_value_content reg_dword (some (1 ∷ 2 ∷ [])) empty
    ≡ ok (
      binary (1 ∷ 2 ∷ []),
      add warning_conversion (lit "Too few input bytes for data type" ∷ []) empty,
    )
unfolding get_value_content
too_short = refl

-- The value of `test_parse_cell_key_value` in src/cell_key_value.rs.
abbrev flag_cell : Bytes
flag_cell =
    0xd0 ∷ 0xff ∷ 0xff ∷ 0xff ∷ 0x76 ∷ 0x6b ∷ 0x12 ∷ 0 ∷ 8 ∷ 0 ∷ 0 ∷ 0 ∷ 0x18 ∷ 0xf ∷ 0 ∷ 0 ∷ 1 ∷ 0
    ∷ 0 ∷ 0 ∷ 1 ∷ 0 ∷ 0 ∷ 0 ∷ 0x49 ∷ 0x45 ∷ 0x35 ∷ 0x5f ∷ 0x55 ∷ 0x41 ∷ 0x5f ∷ 0x42 ∷ 0x61 ∷ 0x63
    ∷ 0x6b ∷ 0x75 ∷ 0x70 ∷ 0x5f ∷ 0x46 ∷ 0x6c ∷ 0x61 ∷ 0x67 ∷ 0 ∷ 0 ∷ 1 ∷ 0 ∷ 0 ∷ 0 ∷ []

flag_cell_read :
    from_bytes reader 0 none flag_cell
    ≡ done [] (
        cell_key_value
          (record {
            file_offset_absolute = 0;
            detail = record {
              size = ℤ.negsuc 47;
              signature = 0x76 ∷ 0x6b ∷ [];
              value_name_size = 18;
              data_size_raw = 8;
              data_offset_relative = 3864;
              data_type_raw = 1;
              flags_raw = 1;
              padding = 0;
              value_name =
                  0x49 ∷ 0x45 ∷ 0x35 ∷ 0x5f ∷ 0x55 ∷ 0x41 ∷ 0x5f ∷ 0x42 ∷ 0x61 ∷ 0x63 ∷ 0x6b ∷ 0x75
                  ∷ 0x70 ∷ 0x5f ∷ 0x46 ∷ 0x6c ∷ 0x61 ∷ 0x67 ∷ [];
              slack = 0 ∷ 0 ∷ 1 ∷ 0 ∷ 0 ∷ 0 ∷ [];
              value_bytes = none;
            };
            data_type = reg_sz;
            flags = 1;
            data_offsets_absolute = [];
            cell_state = allocated;
            logs = empty;
            hash = none;
            sequence_num = none;
            updated_by_sequence_num = none;
          })
          no_versions)
unfolding from_bytes
flag_cell_read = refl

abbrev small_file : FileInfo
small_file = record {
  hbin_offset_absolute = 1;
  buffer = 9 ∷ 1 ∷ 2 ∷ 3 ∷ 4 ∷ 0x61 ∷ 0 ∷ 0x62 ∷ 0 ∷ 5 ∷ [];
}

abbrev letters : Bytes
letters = 0x61 ∷ 0 ∷ 0x62 ∷ 0 ∷ []

read_value_bytes_direct-resident_example :
    read_value_bytes_direct reader 100
      (resident_size (7 ∷ 8 ∷ []))
      (from_le (7 ∷ 8 ∷ []))
      reg_dword
      small_file
      empty
    ≡ ok (record {
      value_bytes = get_value_bytes reg_dword (7 ∷ 8 ∷ []);
      data_offsets_absolute = (100 + 12) ∷ [];
      logs = empty;
    })
read_value_bytes_direct-resident_example =
    read_value_bytes_direct-resident reader 100 (7 ∷ 8 ∷ []) reg_dword small_file empty
      (omega arith, (omega arith, tt)) (omega arith)

read_value_bytes_direct-cell_example :
    read_value_bytes_direct reader 100 (length letters) 0 reg_sz small_file empty
    ≡ ok (record {
      value_bytes = get_value_bytes reg_sz letters;
      data_offsets_absolute = (0 + 1 + 4) ∷ [];
      logs = empty;
    })
read_value_bytes_direct-cell_example =
    read_value_bytes_direct-cell reader 100 reg_sz small_file empty 0 (1 ∷ 2 ∷ 3 ∷ 4 ∷ []) letters
      (5 ∷ []) refl (omega arith) refl refl

-- A value of 16345 bytes in two segments, the second of which stands before the first; the hive bins
-- begin at 4, and the offsets are relative to them.
abbrev full_chunk : Bytes
full_chunk = replicate 16344 7

abbrev two_segments : List Segment
two_segments =
    record { offset = 29; size = 16348; chunk = full_chunk }
    ∷ record { offset = 24; size = 5; chunk = 8 ∷ [] }
    ∷ []

abbrev split_file : FileInfo
split_file = record {
  hbin_offset_absolute = 4;
  buffer =
      9
      ∷ 9
      ∷ 9
      ∷ 9
      ∷ 0xf0
      ∷ 0xff
      ∷ 0xff
      ∷ 0xff
      ∷ 0x64
      ∷ 0x62
      ∷ 2
      ∷ 0
      ∷ 12
      ∷ 0
      ∷ 0
      ∷ 0
      ∷ 0xf0
      ∷ 0xff
      ∷ 0xff
      ∷ 0xff
      ∷ 29
      ∷ 0
      ∷ 0
      ∷ 0
      ∷ 24
      ∷ 0
      ∷ 0
      ∷ 0
      ∷ 0xfb
      ∷ 0xff
      ∷ 0xff
      ∷ 0xff
      ∷ 8
      ∷ 0x24
      ∷ 0xc0
      ∷ 0xff
      ∷ 0xff
      ∷ (full_chunk ++ []);
}

read_value_bytes_direct-segments_example :
    (read_value_bytes_direct reader 100 16345 0 reg_bin split_file empty
      ≡ ok (record {
        value_bytes = get_value_bytes reg_bin (joined two_segments);
        data_offsets_absolute = offsets two_segments;
        logs = empty;
      }))
    × (length (joined two_segments) ≡ 16345)
unfolding encode_items
read_value_bytes_direct-segments_example =
    read_value_bytes_direct-segments reader split_file 100 0 16 12 (2 ^ 32 - 16) 16345 two_segments
      (drop 16 split_file.buffer) (drop 28 split_file.buffer) reg_bin empty (omega arith)
      (omega arith) (omega arith) (omega arith) (omega arith) (omega arith) (omega arith)
      (omega arith, (omega arith, tt)) refl refl
      (
        ([], refl),
        omega arith,
        omega arith,
        omega arith,
        length-replicate {A = ℕ} 16344 7,
        ((drop 33 split_file.buffer, refl), omega arith, omega arith, omega arith, refl, refl),
      )

-- A text value with its bytes read.
abbrev text_value : CellKeyValue
text_value =
    cell_key_value
      (record {
        file_offset_absolute = 0;
        detail = record {
          size = ℤ.negsuc 23;
          signature = 0x76 ∷ 0x6b ∷ [];
          value_name_size = 0;
          data_size_raw = 4;
          data_offset_relative = 0;
          data_type_raw = 1;
          flags_raw = 0;
          padding = 0;
          value_name = [];
          slack = [];
          value_bytes = some letters;
        };
        data_type = reg_sz;
        flags = 0;
        data_offsets_absolute = [];
        cell_state = allocated;
        logs = empty;
        hash = none;
        sequence_num = none;
        updated_by_sequence_num = none;
      })
      no_versions

text_content : get_content text_value ≡ ok (string (0x61 ∷ 0x62 ∷ []), none)
unfolding get_content from_utf16_le_string
text_content = refl

get_content_total_example :
    (r : CellValue × Logs) × (get_value_content
        (fields text_value).data_type
        (fields text_value).detail.value_bytes
        empty
      ≡ ok r)
    × (get_content text_value ≡ ok (with_warnings r))
get_content_total_example = get_content_total text_value
