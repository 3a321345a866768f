-- ===== src/Root.antt =====
-- What a client asks of a parser and of a key: of src/parser.rs `init_root`, which reads the root key
-- behind the header of the first hive bin; of src/cell_key_node.rs `read_sub_keys`,
-- `get_security_descriptors`, `get_pretty_path` and `last_key_written_date_and_time`.
use notatin.Base.{ℕ, ◌-◌, ℤ, true, Option, none, List, [], length, get_from}
use notatin.Outcome.{Outcome, ok, expect, ok_or, buffer, ◌>>=◌}
use notatin.Nom.{finish}
use notatin.BaseBlock.{date_time_nanos}
use notatin.Parser.{FileInfo}
use notatin.HiveBin.{HiveBinHeader, hive_bin_header_from_bytes}
use notatin.Filter.{get_root_path_offset}
use notatin.KeyNode.{CellKeyNode, fields}
use notatin.KeyNode.Modified.{State}
use notatin.KeyNode.Read.{Env, CellKeyNodeReadOptions, read}
use notatin.KeyNode.SubKeys.{SubKeys, read_sub_keys_internal}
use notatin.Security.{Descriptors, read_cell_key_security}

-- What `init_root` sets of a parser, with the state.
pub record Root : Type 0 where
  pub hive_bin_header : HiveBinHeader
  pub cell_key_node_root : Option CellKeyNode
  pub state : State

-- `last_key_written_date_and_time`.
unfoldable pub last_key_written_date_and_time : CellKeyNode → ℤ
unfolding date_time_nanos
last_key_written_date_and_time n = date_time_nanos (fields n).detail.last_key_written_date_and_time

-- `get_pretty_path`. A slice past the end panics.
unfoldable pub get_pretty_path : CellKeyNode → Outcome (List ℕ)
unfolding get_root_path_offset
get_pretty_path n = expect (get_from (fields n).path (get_root_path_offset (fields n).path))

module _ (e : Env) (f : FileInfo) where
  abbrev pub root_options : ℕ → CellKeyNodeReadOptions e
  root_options offset = record {
    offset = offset;
    cur_path = [];
    filter = none;
    self_is_filter_match_or_descendent = true;
    sequence_num = none;
    get_deleted_and_modified = true;
  }

  unfoldable pub init_root : State → Outcome Root
  unfolding hive_bin_header_from_bytes read
  init_root st = do
    input ← ok_or (get_from f.buffer f.hbin_offset_absolute) (buffer "init_root")
    header ← finish (hive_bin_header_from_bytes e.nom f input)
    root ← read e f st (root_options (length f.buffer - length header.0))
    ok (record { hive_bin_header = header.1; cell_key_node_root = root.0; state = root.1 })

  -- `read_sub_keys`, with the key and the state that it leaves.
  unfoldable pub read_sub_keys : CellKeyNode → State → Outcome SubKeys
  unfolding read_sub_keys_internal
  read_sub_keys n st = read_sub_keys_internal e f (record { reg_query = none }) none true n st

  unfoldable pub get_security_descriptors :
      (d : Descriptors) → CellKeyNode → Outcome (List d.SecurityDescriptor)
  unfolding read_cell_key_security
  get_security_descriptors d n =
      read_cell_key_security e.nom d f.buffer f.hbin_offset_absolute e.fuel
        (fields n).detail.security_key_offset_relative
