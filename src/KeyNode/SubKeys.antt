-- ===== src/KeyNode/SubKeys.antt =====
-- src/cell_key_node.rs, the sub keys of a key: `read_sub_keys_internal`, and the access by index and by
-- path.
use notatin.Base.{
  ℕ, suc, ◌+◌, ◌*◌, Bool, true, false, not, ◌&&◌, Option, none, some, List, [], ◌∷◌, get_elem?, ltb,
  ◌==◌, if◌then◌else◌,
}
use notatin.Outcome.{Outcome, ok, err, panic, no_fuel, ◌>>=◌}
use notatin.Log.{Part, lit, num, bytes, add, warning_parse}
use notatin.Parser.{FileInfo}
use notatin.SubKeyList.{parse_sub_key_list}
use notatin.Filter.{Filter, is_valid, return_sub_keys}
use notatin.Value.Cell.{CellState, allocated}
use notatin.KeyNode.{
  CellKeyNode, fields, with_fields, FilterMatchState, no_match, descendent, exact,
  is_filter_match_or_descendent,
}
use notatin.KeyNode.Modified.{State}
use notatin.KeyNode.Read.{Env, CellKeyNodeReadOptions, read}

-- What the reading of sub keys gives: the children, whether one of them is the key that was searched,
-- the key itself with its logs and offsets, and the state.
pub record SubKeys : Type 0 where
  pub children : List CellKeyNode
  pub found_key : Bool
  pub node : CellKeyNode
  pub state : State

abbrev pub is_allocated : CellState → Bool
is_allocated allocated = true
is_allocated _ = false

abbrev pub log_parse : List Part → CellKeyNode → CellKeyNode
log_parse text n =
    with_fields n (record (fields n) { logs = add warning_parse text (fields n).logs })

abbrev pub unparsed_sub_key : ℕ → CellKeyNode → CellKeyNode
unparsed_sub_key val n =
    log_parse (bytes (fields n).path ∷ lit ": Unable to parse sub_key at offset " ∷ num val ∷ []) n

abbrev pub unparsed_list : FileInfo → CellKeyNode → CellKeyNode
unparsed_list f n =
    log_parse
      (bytes (fields n).path
        ∷ lit ": Unable to parse sub_key_list at offset "
        ∷ num ((fields n).detail.sub_keys_list_offset_relative + f.hbin_offset_absolute)
        ∷ [])
      n

abbrev pub too_many_sub_keys : CellKeyNode → CellKeyNode
too_many_sub_keys n =
    log_parse
      (lit "read_values error: too many subkeys: " ∷ num (fields n).detail.number_of_sub_keys ∷ [])
      n

abbrev with_filter_state : CellKeyNode → Option FilterMatchState → CellKeyNode
with_filter_state n s =
    with_fields n (record (fields n) {
      iteration_state = record (fields n).iteration_state { filter_state = s };
    })

-- The filter state of a child that was read, given that of its parent.
unfoldable pub inherit : Bool → Bool → CellKeyNode → CellKeyNode
inherit parent_matches filter_valid kn = elim (fields kn).iteration_state.filter_state [
  | none ↦
      if parent_matches
      then with_filter_state kn (some descendent)
      else if filter_valid
      then with_filter_state kn (some no_match)
      else kn
  | some s ↦ kn
]

-- Whether the child was matched by the filter itself.
unfoldable pub is_exact : CellKeyNode → Bool
is_exact kn = elim (fields kn).iteration_state.filter_state [
  | some exact ↦ true
  | some descendent ↦ false
  | some no_match ↦ false
  | none ↦ false
]

abbrev pub add_child : Bool → Bool → CellKeyNode → SubKeys → SubKeys
add_child parent_matches filter_valid kn r = record r {
  children = inherit parent_matches filter_valid kn ∷ r.children;
  found_key = if is_exact kn then true else r.found_key;
}

module _ (e : Env) where
  -- `sub_filter`: below a match whose children are wanted, nothing is filtered.
  unfoldable pub sub_filter : Bool → Filter e.regexes → Option (Filter e.regexes)
  unfolding return_sub_keys
  sub_filter parent_matches filter =
      if parent_matches && return_sub_keys filter then none else some filter

  abbrev pub sub_options :
      Filter e.regexes → Option ℕ → Bool → CellKeyNode → ℕ → CellKeyNodeReadOptions e
  sub_options filter sequence_num get_deleted_and_modified n val = record {
    offset = val;
    cur_path = (fields n).path;
    filter = sub_filter (is_filter_match_or_descendent (fields n)) filter;
    self_is_filter_match_or_descendent = is_filter_match_or_descendent (fields n);
    sequence_num = sequence_num;
    get_deleted_and_modified = get_deleted_and_modified;
  }

  -- The loop over the offsets. `n` is the key whose sub keys are read.
  unfoldable pub sub_keys_loop :
      FileInfo → Filter e.regexes → Option ℕ → Bool → List ℕ → CellKeyNode → State → Outcome SubKeys
  unfolding inherit is_exact sub_filter read is_valid
  sub_keys_loop f filter sequence_num get_deleted_and_modified [] n st =
      ok (record { children = []; found_key = false; node = n; state = st })
  sub_keys_loop f filter sequence_num get_deleted_and_modified (val ∷ vals) n st =
      elim (read e f st (sub_options filter sequence_num get_deleted_and_modified n val)) [
        | ok (none, st') ↦ sub_keys_loop f filter sequence_num get_deleted_and_modified vals n st'
        | ok (some kn, st') ↦ do
          r ← sub_keys_loop f filter sequence_num get_deleted_and_modified vals n st'
          ok (add_child (is_filter_match_or_descendent (fields n)) (is_valid filter) kn r)
        | err _ ↦
            sub_keys_loop f filter sequence_num get_deleted_and_modified vals
              (unparsed_sub_key val n) st
        | panic ↦ panic
        | no_fuel ↦ no_fuel
      ]

  abbrev pub no_sub_keys : CellKeyNode → State → SubKeys
  no_sub_keys n st = record { children = []; found_key = false; node = n; state = st }

  abbrev pub with_offsets : List ℕ → SubKeys → SubKeys
  with_offsets offsets r = record r {
    node = with_fields r.node (record (fields r.node) { cell_sub_key_offsets_absolute = offsets });
  }

  -- The children at the offsets of the list.
  unfoldable pub listed :
      FileInfo → Filter e.regexes → Option ℕ → Bool → CellKeyNode → State → Outcome SubKeys
  unfolding sub_keys_loop parse_sub_key_list
  listed f filter sequence_num get_deleted_and_modified n st =
      elim (parse_sub_key_list e.nom e.fuel f (fields n).detail.sub_keys_list_offset_relative) [
        | ok offsets ↦ do
          r ← sub_keys_loop f filter sequence_num get_deleted_and_modified offsets n st
          ok (with_offsets offsets r)
        | err _ ↦ ok (no_sub_keys (unparsed_list f n) st)
        | panic ↦ panic
        | no_fuel ↦ no_fuel
      ]

  -- `read_sub_keys_internal`. Only a key in use is followed, and not one with more than 2 ^ 20 sub keys.
  unfoldable pub read_sub_keys_internal :
      FileInfo → Filter e.regexes → Option ℕ → Bool → CellKeyNode → State → Outcome SubKeys
  unfolding listed
  read_sub_keys_internal f filter sequence_num get_deleted_and_modified n st =
      if not (is_allocated (fields n).cell_state)
      then ok (no_sub_keys n st)
      else if ltb (1024 * 1024) (fields n).detail.number_of_sub_keys
      then ok (no_sub_keys (too_many_sub_keys n) st)
      else if (fields n).detail.number_of_sub_keys == 0
      then ok (no_sub_keys n st)
      else listed f filter sequence_num get_deleted_and_modified n st

  -- `get_sub_key_by_index`, with the key and the state that it leaves.
  unfoldable pub get_sub_key_by_index :
      FileInfo → ℕ → CellKeyNode → State → Outcome (Option CellKeyNode × CellKeyNode × State)
  unfolding read parse_sub_key_list
  get_sub_key_by_index f index n st =
      if (fields n).detail.number_of_sub_keys == 0
      then ok (none, n, st)
      else elim (parse_sub_key_list e.nom e.fuel f
          (fields n).detail.sub_keys_list_offset_relative) [
            | ok offsets ↦ elim (get_elem? offsets index) [
              | none ↦ ok (none, n, st)
              | some offset ↦
                  elim (read e f st (record {
                    offset = offset;
                    cur_path = (fields n).path;
                    filter = none;
                    self_is_filter_match_or_descendent = is_filter_match_or_descendent (fields n);
                    sequence_num = none;
                    get_deleted_and_modified = true;
                  })) [
                    | ok (sub_key, st') ↦ ok (sub_key, n, st')
                    | err _ ↦ ok (none, unparsed_sub_key offset n, st)
                    | panic ↦ panic
                    | no_fuel ↦ no_fuel
                  ]
            ]
            | err _ ↦ ok (none, unparsed_list f n, st)
            | panic ↦ panic
            | no_fuel ↦ no_fuel
          ]

  abbrev at_index : ℕ → CellKeyNode → CellKeyNode
  at_index index n = with_fields n (record (fields n) {
    iteration_state = record (fields n).iteration_state { sub_keys_iter_index = index };
  })

  -- `init_sub_key_iter` and `next_sub_key`.
  abbrev pub init_sub_key_iter : CellKeyNode → CellKeyNode
  init_sub_key_iter n = at_index 0 n

  unfoldable pub next_sub_key :
      FileInfo → CellKeyNode → State → Outcome (Option CellKeyNode × CellKeyNode × State)
  unfolding get_sub_key_by_index
  next_sub_key f n st = do
    r ← get_sub_key_by_index f (fields n).iteration_state.sub_keys_iter_index n st
    elim r.0 [
      | none ↦ ok r
      | some sub_key ↦
          ok
            (some sub_key, at_index (suc (fields r.1).iteration_state.sub_keys_iter_index) r.1, r.2)
    ]
