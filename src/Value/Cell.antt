-- ===== src/Value/Cell.antt =====
-- src/cell_key_value.rs, the cell of a value: its fields, and the reading of it. The offsets and lengths
-- that are kept of each field on request are left out.
use notatin.Base.{
  ℕ, ◌-◌, ℤ, Bool, true, false, ◌&&◌, Option, none, some, List, [], ◌∷◌, Bytes, length, leb, ◌==◌,
  if◌then◌else◌, unsigned_abs, bit_and,
}
use notatin.Outcome.{Outcome, ok}
use notatin.Log.{Logs, lit, empty}
use notatin.Nom.{Nom, Parser, error, failed, done, ◌>>=◌, ◌>>◌, pure, remaining}
use notatin.BaseBlock.{lift}
use notatin.TransactionLog.{parser_eat_remaining}
use notatin.Ascii.{string_from_bytes}
use notatin.Value.{CellKeyValueDataTypes, reg_unknown, from_u32}

-- `CellState` of src/cell.rs.
pub data CellState : Type 0 where
  deleted_transaction_log deleted_primary_file deleted_primary_file_slack : CellState
  allocated modified_transaction_log : CellState

unfoldable pub is_deleted : CellState → Bool
is_deleted deleted_transaction_log = true
is_deleted deleted_primary_file = true
is_deleted deleted_primary_file_slack = true
is_deleted _ = false

pub record CellKeyValueDetail : Type 0 where
  pub size : ℤ
  pub signature : Bytes
  pub value_name_size : ℕ
  pub data_size_raw : ℕ
  pub data_offset_relative : ℕ
  pub data_type_raw : ℕ
  pub flags_raw : ℕ
  pub padding : ℕ
  pub value_name : List ℕ
  pub slack : Bytes
  pub value_bytes : Option Bytes

-- The fields of a value but for its older versions.
pub record ValueFields : Type 0 where
  pub file_offset_absolute : ℕ
  pub detail : CellKeyValueDetail
  pub data_type : CellKeyValueDataTypes
  pub flags : ℕ
  pub data_offsets_absolute : List ℕ
  pub cell_state : CellState
  pub logs : Logs
  pub hash : Option Bytes
  pub sequence_num : Option ℕ
  pub updated_by_sequence_num : Option ℕ

mutual
  pub data CellKeyValue : Type 0 where
    cell_key_value : ValueFields → Versions → CellKeyValue

  pub data Versions : Type 0 where
    no_versions : Versions
    version : CellKeyValue → Versions → Versions

abbrev pub fields : CellKeyValue → ValueFields
fields (cell_key_value v older) = v

-- "vk".
abbrev pub vk : Bytes
vk = 0x76 ∷ 0x6b ∷ []

abbrev pub min_cell_value_size : ℕ
min_cell_value_size = 24

unfoldable pub check_size : ℤ → Bytes → Bool
check_size size input =
    leb min_cell_value_size (unsigned_abs size) && leb (unsigned_abs size) (length input)

-- `CellKeyValueFlags::from_bits`, with `unwrap_or_default`: an unknown bit clears all flags.
unfoldable pub value_flags : ℕ → ℕ
value_flags flags_raw = if bit_and flags_raw 3 == flags_raw then flags_raw else 0

abbrev pub value_comp_name_ascii : ℕ → Bool
value_comp_name_ascii flags = bit_and flags 1 == 1

unfoldable pub value_data_type : ℕ → CellKeyValueDataTypes
unfolding from_u32
value_data_type data_type_raw = elim (from_u32 (bit_and data_type_raw 0xfff)) [
  | none ↦ reg_unknown
  | some data_type ↦ data_type
]

-- The name: an empty text where its size is 0.
unfoldable pub read_value_name : ℕ → Bytes → ℕ → Outcome (List ℕ × Logs)
unfolding value_flags string_from_bytes
read_value_name flags_raw value_name_bytes value_name_size =
    if value_name_size == 0
    then ok ([], empty)
    else string_from_bytes (value_comp_name_ascii (value_flags flags_raw)) value_name_bytes
        value_name_size (lit "value_name" ∷ []) empty

-- The early return with `ErrorKind::Eof`.
abbrev pub ensure : Bool → Parser (Unit {0})
ensure true input = done input tt
ensure false input = failed error

-- `CellKeyValue::from_bytes`.
unfoldable pub from_bytes : Nom → ℕ → Option ℕ → Parser CellKeyValue
unfolding check_size value_flags value_data_type read_value_name parser_eat_remaining
from_bytes nom file_offset_absolute sequence_num = do
  input_orig ← remaining
  size ← nom.le_i32
  ensure (check_size size input_orig)
  nom.tag vk
  value_name_size ← nom.le_u16
  data_size_raw ← nom.le_u32
  data_offset_relative ← nom.le_u32
  data_type_raw ← nom.le_u32
  flags_raw ← nom.le_u16
  padding ← nom.le_u16
  value_name_bytes ← nom.take_complete value_name_size
  value_name ← lift (read_value_name flags_raw value_name_bytes value_name_size)
  input ← remaining
  slack ← parser_eat_remaining nom (unsigned_abs size) (length input_orig - length input)
  pure (
      cell_key_value
        (record {
          file_offset_absolute = file_offset_absolute;
          detail = record {
            size = size;
            signature = vk;
            value_name_size = value_name_size;
            data_size_raw = data_size_raw;
            data_offset_relative = data_offset_relative;
            data_type_raw = data_type_raw;
            flags_raw = flags_raw;
            padding = padding;
            value_name = value_name.0;
            slack = slack;
            value_bytes = none;
          };
          data_type = value_data_type data_type_raw;
          flags = value_flags flags_raw;
          data_offsets_absolute = [];
          cell_state = allocated;
          logs = value_name.1;
          hash = none;
          sequence_num = sequence_num;
          updated_by_sequence_num = none;
        })
        no_versions)
