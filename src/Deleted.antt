-- ===== src/Deleted.antt =====
-- src/parser_recover_deleted.rs: the search for keys and values that are no longer in use, also in the
-- slack of other cells; Deleted/Bins walks over the hive bins. `CellType` of src/cell.rs. What is left of the input is a list of bytes with its offset in the file.
pub mod Bins
pub mod Gives
pub mod Marks
pub mod Kept
pub mod Tests
use notatin.Base.{
  ℕ, zero, suc, ◌+◌, ◌-◌, min, ℤ, Bool, true, false, not, ◌||◌, Option, none, some, List, [], ◌∷◌,
  ◌++◌, Bytes, length, drop, get_range, get_from, ltb, ◌==◌, unsigned_abs, if◌then◌else◌,
}
use notatin.Outcome.{Outcome, ok, err, panic, no_fuel, expect, ok_or, buffer, ◌>>=◌ as bind}
use notatin.Log.{Logs, lit, num, add, warning_recovery}
use notatin.Nom.{IResult, Nom, done, failed, crash, finish, starts_with}
use notatin.Parser.{FileInfo}
use notatin.HiveBin.{hive_bin_header_from_bytes}
use notatin.Value.Cell.{
  CellState, deleted_primary_file, deleted_primary_file_slack, CellKeyValue, cell_key_value,
  ValueFields,
}
use notatin.Value.Read.{read_value_bytes, error_text}
use notatin.KeyNode.{KeyFields, CellKeyNode, fields, with_fields, is_free}
use notatin.KeyNode.Modified.{State}
use notatin.KeyNode.Read.{Env, CellKeyNodeReadOptions, read_from_slice}
use notatin.Value.Cell
use notatin.State

pub data CellType : Type 0 where
  cell_other cell_key cell_value cell_security cell_big_data : CellType
  cell_index_root cell_hash_leaf cell_fast_leaf cell_index_leaf : CellType

-- Two letters.
abbrev two : ℕ → ℕ → Bytes
two a b = a ∷ b ∷ []

-- `CellType::read_cell_type`: nk, vk, sk, lf, li, lh, ri and db.
unfoldable pub read_cell_type : Bytes → CellType
read_cell_type input =
    if starts_with (two 0x6e 0x6b) input
    then cell_key
    else if starts_with (two 0x76 0x6b) input
    then cell_value
    else if starts_with (two 0x73 0x6b) input
    then cell_security
    else if starts_with (two 0x6c 0x66) input
    then cell_fast_leaf
    else if starts_with (two 0x6c 0x69) input
    then cell_index_leaf
    else if starts_with (two 0x6c 0x68) input
    then cell_hash_leaf
    else if starts_with (two 0x72 0x69) input
    then cell_index_root
    else if starts_with (two 0x64 0x62) input
    then cell_big_data
    else cell_other

-- `cell_type` of `find_cells_in_slack_internal`.
unfoldable pub slack_cell_type : Bytes → CellType
slack_cell_type input =
    if starts_with (two 0x6e 0x6b) input
    then cell_key
    else if starts_with (two 0x76 0x6b) input
    then cell_value
    else cell_other

unfoldable pub read_range_checked : Bytes → ℕ → ℕ → Outcome (Option Bytes)
read_range_checked buf offset size =
    if ltb offset (length buf)
    then bind (expect (get_range buf offset (min (offset + size) (length buf)))) (λ r. ok (some r))
    else ok none

unfoldable pub read_checked : Bytes → ℕ → Outcome (Option Bytes)
read_checked buf offset =
    if ltb offset (length buf)
    then bind (expect (get_from buf offset)) (λ r. ok (some r))
    else ok none

-- The fields of the state that the search changes.
pub record Recovered : Type 0 where
  pub state : State
  pub info : Logs

abbrev pub add_value : CellState → CellKeyValue → Recovered → Recovered
add_value cell_state (cell_key_value v older) st = record st {
  state = record st.state {
    deleted_values =
        notatin.State.add st.state.deleted_values []
          (cell_key_value (record v { cell_state = cell_state }) older);
  };
}

abbrev pub add_key : CellState → CellKeyNode → Recovered → Recovered
add_key cell_state n st = record st {
  state = record st.state {
    deleted_keys =
        notatin.State.add st.state.deleted_keys []
          (with_fields n (record (fields n) { cell_state = cell_state }));
  };
}

-- `is_free`, `get_cell_size` and `slack_offset_absolute` of a value; then those of a key.
abbrev pub value_is_free : ValueFields → Bool
value_is_free v = elim v.detail.size [ ℤ.pos n ↦ not (n == 0) | ℤ.negsuc n ↦ false ]

abbrev pub value_slack_offset : ValueFields → ℕ
value_slack_offset v = v.file_offset_absolute + unsigned_abs v.detail.size - length v.detail.slack

abbrev pub key_slack_offset : KeyFields → ℕ
key_slack_offset k = k.file_offset_absolute + unsigned_abs k.detail.size - length k.detail.slack

abbrev unparsed_value : ℕ → Recovered → Recovered
unparsed_value offset st = record st {
  info =
      add warning_recovery (lit "\tUnable to parse deleted value at offset " ∷ num offset ∷ [])
        st.info;
}

module _ (e : Env) (f : FileInfo) where
  -- `find_cells_in_slack`, which the reading of a cell calls on the cell's own slack.
  abbrev pub InSlack : Type 0
  InSlack = Bytes → ℕ → Recovered → Outcome Recovered

  -- What is done with the result of the parser. The number is how far the search moves on.
  unfoldable pub value_read :
      InSlack → ℕ → CellState → Bool → Recovered → IResult CellKeyValue → Outcome (ℕ × Recovered)
  unfolding read_value_bytes
  value_read find_cells_in_slack offset cell_state force_add st (done _ (cell_key_value v older)) =
      bind (find_cells_in_slack v.detail.slack (value_slack_offset v) st) λ st'.
        elim (force_add || value_is_free v) [
          | true ↦
              bind (read_value_bytes e.nom e.blake3 f (cell_key_value v older))
                λ value. ok (unsigned_abs v.detail.size, add_value cell_state value st')
          | false ↦ ok (1, st')
        ]
  value_read find_cells_in_slack offset cell_state force_add st (failed _) =
      ok (1, unparsed_value offset st)
  value_read find_cells_in_slack offset cell_state force_add st crash = panic

  unfoldable pub read_cell_key_value :
      InSlack → Bytes → ℕ → CellState → Bool → Recovered → Outcome (ℕ × Recovered)
  unfolding value_read notatin.Value.Cell.from_bytes
  read_cell_key_value find_cells_in_slack input_orig offset cell_state force_add st =
      value_read find_cells_in_slack offset cell_state force_add st
        (notatin.Value.Cell.from_bytes e.nom offset none input_orig)

  abbrev pub deleted_options : ℕ → CellKeyNodeReadOptions e
  deleted_options offset = record {
    offset = offset;
    cur_path = [];
    filter = none;
    self_is_filter_match_or_descendent = true;
    sequence_num = none;
    get_deleted_and_modified = false;
  }

  -- The state that the reading of the key leaves stands in its result.
  unfoldable pub key_read :
      InSlack
      → ℕ
      → CellState
      → Bool
      → Recovered
      → Outcome (Option CellKeyNode × State)
      → Outcome (ℕ × Recovered)
  unfolding is_free error_text
  key_read find_cells_in_slack offset cell_state force_add st (ok (none, state)) =
      ok (1, record st { state = state })
  key_read find_cells_in_slack offset cell_state force_add st (ok (some n, state)) =
      bind
        (find_cells_in_slack (fields n).detail.slack (key_slack_offset (fields n))
          (record st { state = state }))
        λ st'. elim (force_add || is_free (fields n)) [
          | true ↦ ok (unsigned_abs (fields n).detail.size, add_key cell_state n st')
          | false ↦ ok (1, st')
        ]
  key_read find_cells_in_slack offset cell_state force_add st (err detail) = ok (
    1,
    record st {
      info =
          add warning_recovery
            (lit "Unable to parse deleted key at offset "
              ∷ num offset
              ∷ lit " ("
              ∷ (error_text detail ++ lit ")" ∷ []))
            st.info;
    },
  )
  key_read find_cells_in_slack offset cell_state force_add st panic = panic
  key_read find_cells_in_slack offset cell_state force_add st no_fuel = no_fuel

  unfoldable pub read_cell_key_node :
      InSlack → Bytes → ℕ → CellState → Bool → Recovered → Outcome (ℕ × Recovered)
  unfolding key_read read_from_slice
  read_cell_key_node find_cells_in_slack input_orig offset cell_state force_add st =
      key_read find_cells_in_slack offset cell_state force_add st
        (read_from_slice e f st.state input_orig (deleted_options offset))

  -- What is done with a cell of a type in slack.
  unfoldable pub slack_cell : InSlack → CellType → Bytes → ℕ → Recovered → Outcome (ℕ × Recovered)
  unfolding read_cell_key_value read_cell_key_node
  slack_cell find_cells_in_slack cell_value input offset st =
      read_cell_key_value find_cells_in_slack input offset deleted_primary_file_slack true st
  slack_cell find_cells_in_slack cell_key input offset st =
      read_cell_key_node find_cells_in_slack input offset deleted_primary_file_slack true st
  slack_cell find_cells_in_slack _ input offset st = ok (1, st)

  -- `find_cells_in_slack` with `find_cells_in_slack_internal`, whose error is ignored.
  unfoldable pub find_cells_in_slack : ℕ → Bytes → ℕ → Recovered → Outcome Recovered
  unfolding slack_cell slack_cell_type
  find_cells_in_slack zero input offset st = no_fuel
  find_cells_in_slack (suc fuel) [] offset st = ok st
  find_cells_in_slack (suc fuel) (b ∷ bs) offset st = elim (e.nom.le_i32 (b ∷ bs)) [
    | done rest _ ↦
        bind (slack_cell (find_cells_in_slack fuel) (slack_cell_type rest) (b ∷ bs) offset st)
          λ r. find_cells_in_slack fuel (drop r.0 (b ∷ bs)) (offset + r.0) r.1
    | failed _ ↦ ok st
    | crash ↦ panic
  ]
