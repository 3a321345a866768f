-- ===== src/Iterator.antt =====
-- src/parser.rs, the iteration over the keys of a file: `ParserIteratorContext`, and what the loops do
-- with one key. The top of a stack is the head of its list; the set of offsets is a list without
-- repetition.
pub mod Next
pub mod Measure
pub mod Drains
pub mod Tests
use notatin.Base.{
  ℕ, zero, suc, ◌+◌, ◌%◌, ◌^◌, ℤ, Bool, true, false, not, ◌||◌, Option, none, some, List, [], ◌∷◌,
  ◌++◌, map, length, ltb, ◌==◌, if◌then◌else◌,
}
use notatin.Outcome.{Outcome, ok, err, panic, no_fuel, Error, any, ◌>>=◌}
use notatin.Log.{empty}
use notatin.Parser.{FileInfo}
use notatin.Filter.{Filter, is_valid}
use notatin.Value.Cell.{
  allocated, is_deleted, CellKeyValue, cell_key_value, Versions, no_versions, version,
}
use notatin.KeyNode.{
  CellKeyNodeDetail, KeyFields, CellKeyNode, cell_key_node, KeyNodes, no_nodes, more_nodes, fields,
  with_fields, versions, deleted_keys, to_list, new_iteration, FilterMatchState, no_match,
  is_filter_match_or_descendent,
}
use notatin.KeyNode.Modified.{State}
use notatin.KeyNode.Read.{Env}
use notatin.KeyNode.SubKeys.{SubKeys, read_sub_keys_internal}

-- `CellKeyNode::default`.
abbrev default_detail : CellKeyNodeDetail
default_detail = record {
  size = ℤ.pos 0;
  signature = [];
  key_node_flag_bits = 0;
  last_key_written_date_and_time = 0;
  access_flag_bits = 0;
  parent_key_offset_relative = ℤ.pos 0;
  number_of_sub_keys = 0;
  number_of_volatile_sub_keys = 0;
  sub_keys_list_offset_relative = 0;
  volatile_sub_keys_list_offset_relative = ℤ.pos 0;
  number_of_key_values = 0;
  key_values_list_offset_relative = ℤ.pos 0;
  security_key_offset_relative = 0;
  class_name_offset_relative = ℤ.pos 0;
  largest_sub_key_name_size = 0;
  largest_sub_key_class_name_size = 0;
  largest_value_name_size = 0;
  largest_value_data_size = 0;
  work_var = 0;
  key_name_size = 0;
  class_name_size = 0;
  slack = [];
}

abbrev pub default_node : CellKeyNode
default_node =
    cell_key_node
      (record {
        file_offset_absolute = 0;
        detail = default_detail;
        key_name = [];
        path = [];
        cell_state = allocated;
        sequence_num = none;
        updated_by_sequence_num = none;
        sub_values = [];
        logs = empty;
        cell_sub_key_offsets_absolute = [];
        hash = none;
        iteration_state = new_iteration;
      })
      no_nodes no_nodes

pub record ParserIteratorContext (e : Env) : Type 0 where
  pub state : State
  pub filter : Filter e.regexes
  pub stack_to_traverse : List CellKeyNode
  pub stack_file_offsets : List ℕ
  pub stack_to_return : List CellKeyNode
  pub get_modified_items : Bool
  pub filter_include_ancestors : Bool

-- `contains` of the set of offsets.
abbrev pub contains : ℕ → List ℕ → Bool
contains n [] = false
contains n (m ∷ ms) = n == m || contains n ms

abbrev pub offset_of : CellKeyNode → ℕ
offset_of n = (fields n).file_offset_absolute

abbrev pub with_iteration : CellKeyNode → ℕ → ℕ → Option FilterMatchState → CellKeyNode
with_iteration n to_return track_returned filter_state = with_fields n (record (fields n) {
  iteration_state = record (fields n).iteration_state {
    to_return = to_return;
    track_returned = track_returned;
    filter_state = filter_state;
  };
})

-- The number of children that are to be returned first.
abbrev pub with_to_return : ℕ → CellKeyNode → CellKeyNode
with_to_return count n =
    with_iteration n (count % 2 ^ 32) (fields n).iteration_state.track_returned
      (fields n).iteration_state.filter_state

abbrev pub count_returned : CellKeyNode → CellKeyNode
count_returned n =
    with_iteration n (fields n).iteration_state.to_return
      (suc (fields n).iteration_state.track_returned) (fields n).iteration_state.filter_state

-- The loop that gives the deleted keys the filter state of their key.
unfoldable pub inherit_filter_state : Option FilterMatchState → KeyNodes → KeyNodes
inherit_filter_state s no_nodes = no_nodes
inherit_filter_state s (more_nodes d ds) =
    more_nodes
      (with_iteration d (fields d).iteration_state.to_return
        (fields d).iteration_state.track_returned s)
      (inherit_filter_state s ds)

module _ {e : Env} where
  -- `from_parser`, given the state and the root key of the parser.
  unfoldable pub from_parser :
      State → Option CellKeyNode → Bool → Filter e.regexes → Bool → ParserIteratorContext e
  from_parser state cell_key_node_root get_modified_items filter filter_include_ancestors =
      let root : CellKeyNode = elim cell_key_node_root [ none ↦ default_node | some root ↦ root ] in
      record {
        state = state;
        filter = filter;
        stack_to_traverse = root ∷ [];
        stack_file_offsets = offset_of root ∷ [];
        stack_to_return = [];
        get_modified_items = get_modified_items;
        filter_include_ancestors = filter_include_ancestors;
      }

  -- `push_check_stack_to_traverse`, without its error, which the callers ignore.
  unfoldable pub push_check_stack_to_traverse :
      CellKeyNode → ParserIteratorContext e → ParserIteratorContext e
  push_check_stack_to_traverse node_to_add c =
      if contains (offset_of node_to_add) c.stack_file_offsets then c else record c {
        stack_file_offsets = offset_of node_to_add ∷ c.stack_file_offsets;
        stack_to_traverse = node_to_add ∷ c.stack_to_traverse;
      }

  -- The loop over the children, the last one first.
  unfoldable pub push_children :
      List CellKeyNode → ParserIteratorContext e → ParserIteratorContext e
  unfolding push_check_stack_to_traverse
  push_children [] c = c
  push_children (n ∷ ns) c = push_check_stack_to_traverse n (push_children ns c)

  -- The loop over the deleted keys, which are pushed without a check.
  unfoldable pub push_deleted : KeyNodes → ParserIteratorContext e → ParserIteratorContext e
  push_deleted no_nodes c = c
  push_deleted (more_nodes d ds) c =
      push_deleted ds (record c { stack_to_traverse = d ∷ c.stack_to_traverse })

  -- A key with its deleted keys pushed.
  abbrev pub with_deleted :
      CellKeyNode → ParserIteratorContext e → CellKeyNode × ParserIteratorContext e
  with_deleted (cell_key_node k older deleted) c =
      let ds = inherit_filter_state k.iteration_state.filter_state deleted in
      (cell_key_node k older ds, push_deleted ds c)

  -- What the two loops do with the key that they pop, in the context without it: its sub keys are read
  -- and pushed, then its deleted keys.
  unfoldable pub visit :
      FileInfo
      → CellKeyNode
      → ParserIteratorContext e
      → Outcome (CellKeyNode × ParserIteratorContext e)
  unfolding read_sub_keys_internal push_children push_deleted inherit_filter_state
  visit f node c = elim (ltb 0 (fields node).detail.number_of_sub_keys) [
    | false ↦ ok (with_deleted node c)
    | true ↦ do
      r ← read_sub_keys_internal e f c.filter none c.get_modified_items node c.state
      ok (
          with_deleted (with_to_return (length r.children) r.node)
            (push_children r.children (record c { state = r.state })))
  ]
