-- ===== src/Value.antt =====
-- src/cell_key_value.rs and src/cell_value.rs, the content of a value: the data types, the typed content
-- of the bytes of a value, and its decoding. A text is the list of its code points.
pub mod Content
pub mod Decode
pub mod Cell
pub mod Read
pub mod BigData
pub mod Tests
use notatin.Base.{
  ℕ, zero, suc, ◌+◌, ◌-◌, ◌*◌, ◌^◌, min, ℤ, Bool, Option, none, some, List, [], ◌∷◌, ◌++◌, Bytes,
  length, take, get_range, from_le, signed32, ltb, ◌==◌, if◌then◌else◌,
}
use notatin.Outcome.{Outcome, ok, ◌>>=◌}
use notatin.Log.{Logs, lit, add, warning_conversion}
use notatin.Utf16.{from_utf16_le_string, from_utf16_le_strings}

pub data CellKeyValueDataTypes : Type 0 where
  reg_none reg_sz reg_expand_sz reg_bin reg_dword reg_dword_big_endian : CellKeyValueDataTypes
  reg_link reg_multi_sz reg_resource_list reg_full_resource_descriptor : CellKeyValueDataTypes
  reg_resource_requirements_list reg_qword reg_filetime : CellKeyValueDataTypes
  reg_composite_uint8 reg_composite_int16 reg_composite_uint16 : CellKeyValueDataTypes
  reg_composite_int32 reg_composite_uint32 reg_composite_int64 : CellKeyValueDataTypes
  reg_composite_uint64 reg_composite_float reg_composite_double : CellKeyValueDataTypes
  reg_composite_unicode_char reg_composite_boolean : CellKeyValueDataTypes
  reg_composite_unicode_string reg_composite_composite_value : CellKeyValueDataTypes
  reg_composite_date_time_offset reg_composite_time_span : CellKeyValueDataTypes
  reg_composite_guid reg_composite_unk_111 reg_composite_unk_112 : CellKeyValueDataTypes
  reg_composite_unk_113 reg_composite_bytes_array : CellKeyValueDataTypes
  reg_composite_int16_array reg_composite_uint16_array : CellKeyValueDataTypes
  reg_composite_int32_array reg_composite_uint32_array : CellKeyValueDataTypes
  reg_composite_int64_array reg_composite_uint64_array : CellKeyValueDataTypes
  reg_composite_float_array reg_composite_double_array : CellKeyValueDataTypes
  reg_composite_unicode_char_array reg_composite_boolean_array : CellKeyValueDataTypes
  reg_composite_unicode_string_array reg_unknown : CellKeyValueDataTypes

-- The types with their discriminants, in the order of the source.
abbrev pub all_types : List (ℕ × CellKeyValueDataTypes)
all_types =
    (0x0, reg_none)
    ∷ (0x1, reg_sz)
    ∷ (0x2, reg_expand_sz)
    ∷ (0x3, reg_bin)
    ∷ (0x4, reg_dword)
    ∷ (0x5, reg_dword_big_endian)
    ∷ (0x6, reg_link)
    ∷ (0x7, reg_multi_sz)
    ∷ (0x8, reg_resource_list)
    ∷ (0x9, reg_full_resource_descriptor)
    ∷ (0xa, reg_resource_requirements_list)
    ∷ (0xb, reg_qword)
    ∷ (0x10, reg_filetime)
    ∷ (0x101, reg_composite_uint8)
    ∷ (0x102, reg_composite_int16)
    ∷ (0x103, reg_composite_uint16)
    ∷ (0x104, reg_composite_int32)
    ∷ (0x105, reg_composite_uint32)
    ∷ (0x106, reg_composite_int64)
    ∷ (0x107, reg_composite_uint64)
    ∷ (0x108, reg_composite_float)
    ∷ (0x109, reg_composite_double)
    ∷ (0x10a, reg_composite_unicode_char)
    ∷ (0x10b, reg_composite_boolean)
    ∷ (0x10c, reg_composite_unicode_string)
    ∷ (0x10d, reg_composite_composite_value)
    ∷ (0x10e, reg_composite_date_time_offset)
    ∷ (0x10f, reg_composite_time_span)
    ∷ (0x110, reg_composite_guid)
    ∷ (0x111, reg_composite_unk_111)
    ∷ (0x112, reg_composite_unk_112)
    ∷ (0x113, reg_composite_unk_113)
    ∷ (0x114, reg_composite_bytes_array)
    ∷ (0x115, reg_composite_int16_array)
    ∷ (0x116, reg_composite_uint16_array)
    ∷ (0x117, reg_composite_int32_array)
    ∷ (0x118, reg_composite_uint32_array)
    ∷ (0x119, reg_composite_int64_array)
    ∷ (0x11a, reg_composite_uint64_array)
    ∷ (0x11b, reg_composite_float_array)
    ∷ (0x11c, reg_composite_double_array)
    ∷ (0x11d, reg_composite_unicode_char_array)
    ∷ (0x11e, reg_composite_boolean_array)
    ∷ (0x11f, reg_composite_unicode_string_array)
    ∷ (999, reg_unknown)
    ∷ []

abbrev pub lookup_type : ℕ → List (ℕ × CellKeyValueDataTypes) → Option CellKeyValueDataTypes
lookup_type code [] = none
lookup_type code ((c, t) ∷ types) =
    let rest = lookup_type code types in if c == code then some t else rest

-- `from_u32`, which the enumeration derives.
unfoldable pub from_u32 : ℕ → Option CellKeyValueDataTypes
from_u32 code = lookup_type code all_types

pub data CellValue : Type 0 where
  no_value error_value : CellValue
  binary : Bytes → CellValue
  string : List ℕ → CellValue
  multi_string : List (List ℕ) → CellValue
  u32 u64 : ℕ → CellValue
  i32 i64 : ℤ → CellValue

-- The integers that bit patterns of 16 and of 64 bits stand for.
abbrev pub signed16 : ℕ → ℤ
signed16 w = if ltb w (2 ^ 15) then ℤ.pos w else ℤ.negsuc (2 ^ 16 - w - 1)

abbrev pub signed64 : ℕ → ℤ
signed64 w = if ltb w (2 ^ 63) then ℤ.pos w else ℤ.negsuc (2 ^ 64 - w - 1)

-- `from_be_bytes`, after the bytes that were read.
abbrev pub from_be : ℕ → Bytes → ℕ
from_be read [] = read
from_be read (b ∷ bs) = from_be (read * 256 + b) bs

unfoldable pub handle_invalid_input : Bytes → Logs → CellValue × Logs
handle_invalid_input input logs =
    (binary input, add warning_conversion (lit "Too few input bytes for data type" ∷ []) logs)

-- The value of the first `n` bytes, where they are there.
unfoldable pub read_number : ℕ → (Bytes → CellValue) → Bytes → Logs → Outcome (CellValue × Logs)
unfolding handle_invalid_input
read_number n value input logs = elim (get_range input 0 n) [
  | some val ↦ ok (value val, logs)
  | none ↦ ok (handle_invalid_input input logs)
]

unfoldable pub read_string : Bytes → Logs → Outcome (CellValue × Logs)
read_string input logs = do
  r ← from_utf16_le_string input (length input) (lit "Get value content" ∷ []) logs
  ok (string r.0, r.1)

unfoldable pub read_strings : Bytes → Logs → Outcome (CellValue × Logs)
read_strings input logs = do
  r ← from_utf16_le_strings input (length input) (lit "Get value content" ∷ []) logs
  ok (multi_string r.0, r.1)

-- The arm of each data type.
unfoldable pub typed_content : CellKeyValueDataTypes → Bytes → Logs → Outcome (CellValue × Logs)
unfolding read_number read_string read_strings
typed_content reg_sz = read_string
typed_content reg_expand_sz = read_string
typed_content reg_link = read_string
typed_content reg_composite_uint8 = read_number 1 (λ val. u32 (from_le val))
typed_content reg_composite_boolean = read_number 1 (λ val. u32 (from_le val))
typed_content reg_composite_int16 = read_number 2 (λ val. i32 (signed16 (from_le val)))
typed_content reg_composite_uint16 = read_number 2 (λ val. u32 (from_le val))
typed_content reg_dword = read_number 4 (λ val. u32 (from_le val))
typed_content reg_composite_uint32 = read_number 4 (λ val. u32 (from_le val))
typed_content reg_dword_big_endian = read_number 4 (λ val. u32 (from_be 0 val))
typed_content reg_composite_int32 = read_number 4 (λ val. i32 (signed32 (from_le val)))
typed_content reg_composite_int64 = read_number 8 (λ val. i64 (signed64 (from_le val)))
typed_content reg_qword = read_number 8 (λ val. u64 (from_le val))
typed_content reg_composite_uint64 = read_number 8 (λ val. u64 (from_le val))
typed_content reg_filetime = read_number 8 (λ val. u64 (from_le val))
typed_content reg_multi_sz = read_strings
typed_content _ = λ input logs. ok (binary input, logs)

unfoldable pub get_value_content :
    CellKeyValueDataTypes → Option Bytes → Logs → Outcome (CellValue × Logs)
unfolding typed_content
get_value_content data_type none logs = ok (no_value, logs)
get_value_content data_type (some input) logs = typed_content data_type input logs

unfoldable pub get_data_type_len : CellKeyValueDataTypes → Option ℕ
get_data_type_len reg_composite_uint8 = some 1
get_data_type_len reg_composite_int16 = some 2
get_data_type_len reg_composite_uint16 = some 2
get_data_type_len reg_dword = some 4
get_data_type_len reg_composite_uint32 = some 4
get_data_type_len reg_dword_big_endian = some 4
get_data_type_len reg_composite_int32 = some 4
get_data_type_len reg_composite_int64 = some 8
get_data_type_len reg_qword = some 8
get_data_type_len reg_composite_uint64 = some 8
get_data_type_len reg_filetime = some 8
get_data_type_len _ = none

unfoldable pub get_value_bytes : CellKeyValueDataTypes → Bytes → Bytes
unfolding get_data_type_len
get_value_bytes data_type input = elim (get_data_type_len data_type) [
  | some data_type_len ↦ take (min data_type_len (length input)) input
  | none ↦ input
]
