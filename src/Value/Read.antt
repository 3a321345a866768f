-- ===== src/Value/Read.antt =====
-- src/cell_key_value.rs, the bytes of a value: in its cell, in a cell of their own, or split as big
-- data. `hash` of the crate blake3 is the parameter `blake3`, on the bytes that `update` was given.
pub mod Small
pub mod Big
use notatin.Base.{
  ℕ, ◌+◌, ◌-◌, ◌^◌, Option, none, some, List, [], ◌∷◌, ◌++◌, Bytes, length, get_range, get_from,
  to_le, Bool, ◌&&◌, ltb, ◌==◌, if◌then◌else◌, bit_and, bit_xor,
}
use notatin.Outcome.{
  Outcome, ok, err, panic, no_fuel, Error, nom_error, conversion, winstructs, buffer, any, ◌>>=◌,
}
use notatin.Log.{
  Logs, Part, lit, add, empty, warning_parse, warning_big_data_content, warning_content,
}
use notatin.Nom.{Nom}
use notatin.Parser.{FileInfo}
use notatin.Value.{
  CellKeyValueDataTypes, CellValue, error_value, get_value_bytes, get_value_content,
}
use notatin.Value.Cell.{CellKeyValue, cell_key_value, CellKeyValueDetail, ValueFields}
use notatin.Value.BigData.{big_data_size_threshold, is_big_data_block, get_big_data_bytes}

-- `Display` of src/err.rs. What the conversions of the core library and winstructs say is left out.
unfoldable pub error_text : Error → List Part
error_text nom_error =
    lit "An error has occurred in the Nom library: " ∷ lit "Nom parsing error" ∷ []
error_text conversion = lit "An error has occurred while converting: " ∷ []
error_text winstructs = lit "An error has occurred in the Winstructs library: " ∷ []
error_text (buffer detail) = lit "Invalid buffer access: " ∷ lit detail ∷ []
error_text (any detail) = lit "An error has occurred when converting: " ∷ lit detail ∷ []

abbrev pub data_is_resident_mask : ℕ
data_is_resident_mask = 0x80000000

-- What `read_value_bytes_direct` gives, with the logs.
pub record ValueBytes : Type 0 where
  pub value_bytes : Bytes
  pub data_offsets_absolute : List ℕ
  pub logs : Logs

-- `or_else` on the result of the big data.
unfoldable pub big_data_or_warning : Outcome (Bytes × List ℕ) → Logs → Outcome ValueBytes
unfolding error_text
big_data_or_warning (ok (bytes, offsets)) logs =
    ok (record { value_bytes = bytes; data_offsets_absolute = offsets; logs = logs })
big_data_or_warning (err e) logs = ok (record {
  value_bytes = [];
  data_offsets_absolute = [];
  logs = add warning_big_data_content (error_text e) logs;
})
big_data_or_warning panic logs = panic
big_data_or_warning no_fuel logs = no_fuel

-- The bytes, or none and a warning.
unfoldable pub bytes_or_warning : CellKeyValueDataTypes → Option Bytes → List ℕ → Logs → ValueBytes
unfolding get_value_bytes
bytes_or_warning data_type (some slice) offsets warned = record {
  value_bytes = get_value_bytes data_type slice;
  data_offsets_absolute = offsets;
  logs = warned;
}
bytes_or_warning data_type none offsets warned = record {
  value_bytes = [];
  data_offsets_absolute = offsets;
  logs = warned;
}

-- The warning that is added where the slice is not there.
abbrev pub warn_unless : Option Bytes → Logs → Logs → Logs
warn_unless (some slice) warned logs = logs
warn_unless none warned logs = warned

-- The branch of a value that stands in its cell.
unfoldable pub read_resident : ℕ → ℕ → ℕ → CellKeyValueDataTypes → Logs → ValueBytes
unfolding bytes_or_warning error_text
read_resident file_offset_absolute data_size_raw data_offset_relative data_type logs =
    let slice =
      get_range (to_le 4 data_offset_relative) 0 (bit_xor data_size_raw data_is_resident_mask) in
    bytes_or_warning data_type slice ((file_offset_absolute + 12) ∷ []) (
      warn_unless slice
        (add warning_big_data_content
          (error_text (buffer "read_value_bytes_direct: resident_value")) logs)
        logs)

-- The branch of a value in a cell of its own, whose size is skipped.
unfoldable pub read_cell : ℕ → ℕ → CellKeyValueDataTypes → FileInfo → Logs → ValueBytes
unfolding bytes_or_warning error_text
read_cell offset data_size_raw data_type f logs =
    let slice = get_range f.buffer (offset + 4) (offset + 4 + data_size_raw) in
    bytes_or_warning data_type slice ((offset + 4) ∷ []) (
      warn_unless slice
        (add warning_parse (error_text (buffer "read_value_bytes_direct: file_offset and length"))
          logs)
        logs)

unfoldable pub read_value_bytes_direct :
    Nom → ℕ → ℕ → ℕ → CellKeyValueDataTypes → FileInfo → Logs → Outcome ValueBytes
unfolding read_resident read_cell big_data_or_warning get_big_data_bytes is_big_data_block
    bytes_or_warning error_text
read_value_bytes_direct nom file_offset_absolute data_size_raw data_offset_relative data_type f
      logs =
    if bit_and data_size_raw data_is_resident_mask == 0
    then elim (get_from f.buffer (data_offset_relative + f.hbin_offset_absolute)) [
      | some slice ↦
          if ltb big_data_size_threshold data_size_raw && is_big_data_block slice
          then big_data_or_warning
              (get_big_data_bytes nom f (data_offset_relative + f.hbin_offset_absolute) data_type
                data_size_raw)
              logs
          else ok (
              read_cell (data_offset_relative + f.hbin_offset_absolute) data_size_raw data_type f
                logs)
      | none ↦ ok (
          bytes_or_warning data_type none []
            (add warning_parse (error_text (buffer "read_value_bytes_direct: file_offset")) logs))
    ]
    else ok (read_resident file_offset_absolute data_size_raw data_offset_relative data_type logs)

-- `CellKeyValue::hash`.
unfoldable pub hash : (Bytes → Bytes) → ℕ → ℕ → Bytes → Bytes
hash blake3 data_type_raw flags_raw value_bytes =
    blake3 (to_le 4 data_type_raw ++ (to_le 2 flags_raw ++ value_bytes))

-- `CellKeyValue::read_value_bytes`.
unfoldable pub read_value_bytes :
    Nom → (Bytes → Bytes) → FileInfo → CellKeyValue → Outcome CellKeyValue
unfolding read_value_bytes_direct hash
read_value_bytes nom blake3 f (cell_key_value v older) = do
  r ←
      read_value_bytes_direct nom v.file_offset_absolute v.detail.data_size_raw
        v.detail.data_offset_relative v.data_type f v.logs
  ok (
      cell_key_value
        (record v {
          data_offsets_absolute = v.data_offsets_absolute ++ r.data_offsets_absolute;
          logs = r.logs;
          hash = some (hash blake3 v.detail.data_type_raw v.detail.flags_raw r.value_bytes);
          detail = record v.detail { value_bytes = some r.value_bytes };
        })
        older)

-- `CellKeyValue::get_content`: an error becomes a value with a warning.
unfoldable pub content_or_warning : Outcome (CellValue × Logs) → Outcome (CellValue × Logs)
unfolding error_text
content_or_warning (err e) = ok (error_value, add warning_content (error_text e) empty)
content_or_warning (ok r) = ok r
content_or_warning panic = panic
content_or_warning no_fuel = no_fuel

abbrev pub with_warnings : CellValue × Logs → CellValue × Option Logs
with_warnings (value, warnings) =
    (value, elim warnings.logs [ none ↦ none | some _ ↦ some warnings ])

unfoldable pub get_content : CellKeyValue → Outcome (CellValue × Option Logs)
unfolding content_or_warning get_value_content
get_content (cell_key_value v older) =
    content_or_warning (get_value_content v.data_type v.detail.value_bytes empty) >>= λ r.
    ok (with_warnings r)
