-- ===== src/KeyNode.antt =====
-- src/cell_key_node.rs, the cell of a key: its fields, its flags, and the reading of its own bytes. A
-- text is the list of its code points, and so is a path; offsets into a path count them. The offsets
-- and lengths that are kept of each field on request are left out.
pub mod Values
pub mod Modified
pub mod Read
pub mod SubKeys
pub mod Sized
pub mod Offsets
pub mod Within
pub mod Header
pub mod Tests
use notatin.Base.{
  ℕ, ◌+◌, ◌-◌, ◌^◌, ℤ, Bool, true, false, not, ◌&&◌, ◌||◌, Option, none, some, List, [], ◌∷◌, ◌++◌,
  Bytes, length, leb, ◌==◌, if◌then◌else◌, unsigned_abs, to_le, bit_and,
}
use notatin.Outcome.{Outcome, ok}
use notatin.Log.{Logs, lit, num, add, empty, warning_unrecognized_bitflag}
use notatin.Nom.{Nom, Parser, ◌>>=◌, ◌>>◌, pure, remaining}
use notatin.BaseBlock.{lift}
use notatin.TransactionLog.{parser_eat_remaining}
use notatin.Ascii.{string_from_bytes}
use notatin.Value.Cell.{
  CellState, CellKeyValue, is_deleted, modified_transaction_log, allocated, ensure,
}

pub record CellKeyNodeDetail : Type 0 where
  pub size : ℤ
  pub signature : Bytes
  pub key_node_flag_bits : ℕ
  pub last_key_written_date_and_time : ℕ
  pub access_flag_bits : ℕ
  pub parent_key_offset_relative : ℤ
  pub number_of_sub_keys : ℕ
  pub number_of_volatile_sub_keys : ℕ
  pub sub_keys_list_offset_relative : ℕ
  pub volatile_sub_keys_list_offset_relative : ℤ
  pub number_of_key_values : ℕ
  pub key_values_list_offset_relative : ℤ
  pub security_key_offset_relative : ℕ
  pub class_name_offset_relative : ℤ
  pub largest_sub_key_name_size : ℕ
  pub largest_sub_key_class_name_size : ℕ
  pub largest_value_name_size : ℕ
  pub largest_value_data_size : ℕ
  pub work_var : ℕ
  pub key_name_size : ℕ
  pub class_name_size : ℕ
  pub slack : Bytes

pub data FilterMatchState : Type 0 where
  no_match descendent exact : FilterMatchState

pub record CellKeyNodeIteration : Type 0 where
  pub to_return : ℕ
  pub track_returned : ℕ
  pub filter_state : Option FilterMatchState
  pub sub_keys_iter_index : ℕ

-- The fields of a key but for its older versions and its deleted keys.
pub record KeyFields : Type 0 where
  pub file_offset_absolute : ℕ
  pub detail : CellKeyNodeDetail
  pub key_name : List ℕ
  pub path : List ℕ
  pub cell_state : CellState
  pub sequence_num : Option ℕ
  pub updated_by_sequence_num : Option ℕ
  pub sub_values : List CellKeyValue
  pub logs : Logs
  pub cell_sub_key_offsets_absolute : List ℕ
  pub hash : Option Bytes
  pub iteration_state : CellKeyNodeIteration

-- A key with its `versions` and its `deleted_keys`.
mutual
  pub data CellKeyNode : Type 0 where
    cell_key_node : KeyFields → KeyNodes → KeyNodes → CellKeyNode

  pub data KeyNodes : Type 0 where
    no_nodes : KeyNodes
    more_nodes : CellKeyNode → KeyNodes → KeyNodes

abbrev pub fields : CellKeyNode → KeyFields
fields (cell_key_node k older deleted) = k

abbrev pub with_fields : CellKeyNode → KeyFields → CellKeyNode
with_fields (cell_key_node k older deleted) k' = cell_key_node k' older deleted

abbrev pub versions : CellKeyNode → KeyNodes
versions (cell_key_node k older deleted) = older

abbrev pub deleted_keys : CellKeyNode → KeyNodes
deleted_keys (cell_key_node k older deleted) = deleted

abbrev pub to_list : KeyNodes → List CellKeyNode
to_list no_nodes = []
to_list (more_nodes n ns) = n ∷ to_list ns

abbrev pub of_list : List CellKeyNode → KeyNodes
of_list [] = no_nodes
of_list (n ∷ ns) = more_nodes n (of_list ns)

-- "nk".
abbrev pub nk : Bytes
nk = 0x6e ∷ 0x6b ∷ []

abbrev pub min_cell_key_size : ℕ
min_cell_key_size = 72

unfoldable pub check_size : ℤ → ℕ → Bool
check_size size input_len =
    leb min_cell_key_size (unsigned_abs size) && leb (unsigned_abs size) input_len

-- `from_bits_checked` of src/macros.rs, for the flags whose bits are `known`: unknown bits are dropped,
-- with a warning, whose name of the flags is left out.
unfoldable pub from_bits_checked : ℕ → ℕ → Logs → ℕ × Logs
from_bits_checked known flags logs = (
  bit_and flags known,
  if flags == bit_and flags known
      then logs
      else add warning_unrecognized_bitflag (lit "from_bits_checked: " ∷ num flags ∷ []) logs,
)

-- `KeyNodeFlags` and `AccessFlags`.
abbrev pub key_node_flags_known : ℕ
key_node_flags_known = 0x53ff

abbrev pub access_flags_known : ℕ
access_flags_known = 3

unfoldable pub key_node_flags : KeyFields → Logs → ℕ × Logs
unfolding from_bits_checked
key_node_flags k logs = from_bits_checked key_node_flags_known k.detail.key_node_flag_bits logs

unfoldable pub access_flags : KeyFields → Logs → ℕ × Logs
unfolding from_bits_checked
access_flags k logs = from_bits_checked access_flags_known k.detail.access_flag_bits logs

abbrev pub key_hive_entry : ℕ → Bool
key_hive_entry flags = bit_and flags 4 == 4

abbrev pub key_comp_name : ℕ → Bool
key_comp_name flags = bit_and flags 0x20 == 0x20

unfoldable pub is_key_root : KeyFields → Bool
unfolding key_node_flags
is_key_root k = key_hive_entry (key_node_flags k empty).0

unfoldable pub is_free : KeyFields → Bool
is_free k = elim k.detail.size [ ℤ.pos n ↦ not (n == 0) | ℤ.negsuc n ↦ false ]

unfoldable pub is_filter_match_or_descendent : KeyFields → Bool
is_filter_match_or_descendent k = elim k.iteration_state.filter_state [
  | some exact ↦ true
  | some descendent ↦ true
  | some no_match ↦ false
  | none ↦ false
]

abbrev is_modified : CellState → Bool
is_modified modified_transaction_log = true
is_modified _ = false

abbrev has_nodes : KeyNodes → Bool
has_nodes no_nodes = false
has_nodes (more_nodes n ns) = true

-- `Cell::has_or_is_recovered`.
unfoldable pub has_or_is_recovered : CellKeyNode → Bool
unfolding is_deleted
has_or_is_recovered (cell_key_node k older deleted) =
    is_deleted k.cell_state || is_modified k.cell_state || has_nodes older

abbrev pub new_iteration : CellKeyNodeIteration
new_iteration = record {
  to_return = 0;
  track_returned = 0;
  filter_state = none;
  sub_keys_iter_index = 0;
}

-- `CellKeyNode::hash`. `hash` of the crate blake3 is the parameter `blake3`, on the bytes that `update`
-- was given.
unfoldable pub hash : (Bytes → Bytes) → ℕ → ℕ → ℕ → Bytes
hash blake3 flags_raw last_key_written_raw access_bits_raw =
    blake3 (to_le 2 flags_raw ++ (to_le 8 last_key_written_raw ++ to_le 4 access_bits_raw))

module _ (nom : Nom) where
  -- The fields before the name.
  unfoldable pub detail_from_bytes : ℤ → Parser CellKeyNodeDetail
  detail_from_bytes size = do
    key_node_flag_bits ← nom.le_u16
    last_key_written_date_and_time ← nom.le_u64
    access_flag_bits ← nom.le_u32
    parent_key_offset_relative ← nom.le_i32
    number_of_sub_keys ← nom.le_u32
    number_of_volatile_sub_keys ← nom.le_u32
    sub_keys_list_offset_relative ← nom.le_u32
    volatile_sub_keys_list_offset_relative ← nom.le_i32
    number_of_key_values ← nom.le_u32
    key_values_list_offset_relative ← nom.le_i32
    security_key_offset_relative ← nom.le_u32
    class_name_offset_relative ← nom.le_i32
    largest_sub_key_name_size ← nom.le_u32
    largest_sub_key_class_name_size ← nom.le_u32
    largest_value_name_size ← nom.le_u32
    largest_value_data_size ← nom.le_u32
    work_var ← nom.le_u32
    key_name_size ← nom.le_u16
    class_name_size ← nom.le_u16
    pure (record {
      size = size;
      signature = nk;
      key_node_flag_bits = key_node_flag_bits;
      last_key_written_date_and_time = last_key_written_date_and_time;
      access_flag_bits = access_flag_bits;
      parent_key_offset_relative = parent_key_offset_relative;
      number_of_sub_keys = number_of_sub_keys;
      number_of_volatile_sub_keys = number_of_volatile_sub_keys;
      sub_keys_list_offset_relative = sub_keys_list_offset_relative;
      volatile_sub_keys_list_offset_relative = volatile_sub_keys_list_offset_relative;
      number_of_key_values = number_of_key_values;
      key_values_list_offset_relative = key_values_list_offset_relative;
      security_key_offset_relative = security_key_offset_relative;
      class_name_offset_relative = class_name_offset_relative;
      largest_sub_key_name_size = largest_sub_key_name_size;
      largest_sub_key_class_name_size = largest_sub_key_class_name_size;
      largest_value_name_size = largest_value_name_size;
      largest_value_data_size = largest_value_data_size;
      work_var = work_var;
      key_name_size = key_name_size;
      class_name_size = class_name_size;
      slack = [];
    })

  -- The part of `from_bytes` that reads: the detail with the slack, and the name with its logs.
  unfoldable pub parts_from_bytes : Parser (CellKeyNodeDetail × List ℕ × Logs)
  unfolding check_size detail_from_bytes from_bits_checked parser_eat_remaining
  parts_from_bytes = do
    start ← remaining
    size ← nom.le_i32
    sized ← remaining
    ensure (check_size size (length sized + 4))
    nom.tag nk
    detail ← detail_from_bytes size
    key_name_bytes ← nom.take_complete detail.key_name_size
    let flags = from_bits_checked key_node_flags_known detail.key_node_flag_bits empty
    key_name ← lift (
        string_from_bytes (key_comp_name flags.0) key_name_bytes detail.key_name_size
          (lit "key_name_bytes" ∷ []) flags.1)
    input ← remaining
    slack ← parser_eat_remaining nom (unsigned_abs size) (length start - length input)
    pure (record detail { slack = slack }, key_name.0, key_name.1)

  -- `CellKeyNode::from_bytes`.
  unfoldable pub from_bytes : (Bytes → Bytes) → ℕ → List ℕ → Option ℕ → Parser CellKeyNode
  unfolding parts_from_bytes hash
  from_bytes blake3 file_offset_absolute cur_path sequence_num = do
    parts ← parts_from_bytes
    let detail = parts.0
    pure (
        cell_key_node
          (record {
            file_offset_absolute = file_offset_absolute;
            detail = detail;
            key_name = parts.1;
            path = cur_path ++ 0x5c ∷ parts.1;
            cell_state = allocated;
            sequence_num = sequence_num;
            updated_by_sequence_num = none;
            sub_values = [];
            logs = parts.2;
            cell_sub_key_offsets_absolute = [];
            hash = some (
                hash blake3 detail.key_node_flag_bits detail.last_key_written_date_and_time
                  detail.access_flag_bits);
            iteration_state = new_iteration;
          })
          no_nodes no_nodes)
