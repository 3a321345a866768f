-- ===== src/Value/Content.antt =====
-- The content of a value is always computed.
use notatin.Base.{
  ℕ, ◌≡◌, refl, Option, none, some, Bytes, get_range, length, from_le, signed32, [], ◌∷◌, arith,
  Option-cases, inl, inr,
}
use notatin.Outcome.{Outcome, ok, ◌>>=◌}
use notatin.Log.{Logs, lit, empty}
use notatin.Utf16.Total.{from_utf16_le_string_total, from_utf16_le_strings_total}
use notatin.Value.{
  CellKeyValueDataTypes, CellValue, handle_invalid_input, read_number, read_string, read_strings,
  typed_content, get_value_content, string, multi_string, binary, u32, u64, i32, i64, signed16,
  signed64, from_be, reg_sz, reg_expand_sz, reg_link, reg_composite_uint8, reg_composite_boolean,
  reg_composite_int16, reg_composite_uint16, reg_dword, reg_composite_uint32, reg_dword_big_endian,
  reg_composite_int32, reg_composite_int64, reg_qword, reg_composite_uint64, reg_filetime,
  reg_multi_sz, no_value,
}
use notatin.Value.Cell.{CellKeyValue, cell_key_value, fields}
use notatin.Value.Read.{get_content, content_or_warning, with_warnings}

abbrev HasContent : Outcome (CellValue × Logs) → Type 0
HasContent o = (r : CellValue × Logs) × (o ≡ ok r)

read_number_total :
    (n : ℕ) (value : Bytes → CellValue) (input : Bytes) (logs : Logs)
    → HasContent (read_number n value input logs)
unfolding read_number
read_number_total n value input logs = elim (Option-cases (get_range input 0 n)) [
  | inl short ↦ (handle_invalid_input input logs, rw (short, read_number) refl)
  | inr (val, e) ↦ ((value val, logs), rw (e, read_number) refl)
]

read_string_total : (input : Bytes) (logs : Logs) → HasContent (read_string input logs)
unfolding read_string
read_string_total input logs =
    let (r, e) =
      from_utf16_le_string_total input (length input) (lit "Get value content" ∷ []) logs
        (omega arith) in
    ((string r.0, r.1), rw (e, read_string, ◌>>=◌) refl)

read_strings_total : (input : Bytes) (logs : Logs) → HasContent (read_strings input logs)
unfolding read_strings
read_strings_total input logs =
    let (r, e) =
      from_utf16_le_strings_total input (length input) (lit "Get value content" ∷ []) logs
        (omega arith) in
    ((multi_string r.0, r.1), rw (e, read_strings, ◌>>=◌) refl)

typed_content_total :
    (t : CellKeyValueDataTypes) (input : Bytes) (logs : Logs)
    → HasContent (typed_content t input logs)
unfolding typed_content
typed_content_total reg_sz input logs = read_string_total input logs
typed_content_total reg_expand_sz input logs = read_string_total input logs
typed_content_total reg_dword input logs = read_number_total 4 (λ val. u32 (from_le val)) input logs
typed_content_total reg_dword_big_endian input logs =
    read_number_total 4 (λ val. u32 (from_be 0 val)) input logs
typed_content_total reg_link input logs = read_string_total input logs
typed_content_total reg_multi_sz input logs = read_strings_total input logs
typed_content_total reg_qword input logs = read_number_total 8 (λ val. u64 (from_le val)) input logs
typed_content_total reg_filetime input logs =
    read_number_total 8 (λ val. u64 (from_le val)) input logs
typed_content_total reg_composite_uint8 input logs =
    read_number_total 1 (λ val. u32 (from_le val)) input logs
typed_content_total reg_composite_int16 input logs =
    read_number_total 2 (λ val. i32 (signed16 (from_le val))) input logs
typed_content_total reg_composite_uint16 input logs =
    read_number_total 2 (λ val. u32 (from_le val)) input logs
typed_content_total reg_composite_int32 input logs =
    read_number_total 4 (λ val. i32 (signed32 (from_le val))) input logs
typed_content_total reg_composite_uint32 input logs =
    read_number_total 4 (λ val. u32 (from_le val)) input logs
typed_content_total reg_composite_int64 input logs =
    read_number_total 8 (λ val. i64 (signed64 (from_le val))) input logs
typed_content_total reg_composite_uint64 input logs =
    read_number_total 8 (λ val. u64 (from_le val)) input logs
typed_content_total reg_composite_boolean input logs =
    read_number_total 1 (λ val. u32 (from_le val)) input logs
typed_content_total _ input logs = ((binary input, logs), refl)

content_total :
    (t : CellKeyValueDataTypes) (input : Option Bytes) (logs : Logs)
    → HasContent (get_value_content t input logs)
unfolding get_value_content
content_total t none logs = ((no_value, logs), refl)
content_total t (some input) logs = typed_content_total t input logs

-- Every value has a content, whatever its data type and its bytes: reading it neither fails nor panics,
-- and `get_content` gives that content with the warnings of the reading.
pub get_content_total :
    (v : CellKeyValue)
    → (r : CellValue × Logs) × (get_value_content
          (fields v).data_type
          (fields v).detail.value_bytes
          empty
        ≡ ok r)
      × (get_content v ≡ ok (with_warnings r))
unfolding get_content content_or_warning
get_content_total (cell_key_value v older) =
    let (r, e) = content_total v.data_type v.detail.value_bytes empty in
    (r, e, rw (e, get_content, content_or_warning, ◌>>=◌) refl)
