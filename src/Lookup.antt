-- ===== src/Lookup.antt =====
-- src/parser.rs, the direct access to keys: `get_root_key`, `get_sub_key`, `get_key` and `get_parent_key`;
-- and of src/cell_key_node.rs `get_sub_key_by_path` and `get_sub_key_internal`. Of a parser they use the
-- file, the state, and the offset of the root cell, where there is a base block.
use notatin.Base.{
  ℕ, zero, suc, ◌+◌, Bool, true, false, Option, none, some, List, [], ◌∷◌, ◌++◌, drop, get_elem?,
  get_from,
}
use notatin.Outcome.{Outcome, ok, err, panic, no_fuel, expect, ◌>>=◌}
use notatin.Parser.{FileInfo}
use notatin.State.{before_last}
use notatin.SubKeyList.{list_offset}
use notatin.Filter.{
  Filter, new_builder, add_key_path, with_root, build, backslash, trim_start, find_backslash,
  kept_root_path_offset,
}
use notatin.KeyNode.{CellKeyNode, fields}
use notatin.KeyNode.Modified.{State}
use notatin.KeyNode.Read.{Env, read}
use notatin.KeyNode.SubKeys.{read_sub_keys_internal}

abbrev pub Found : Type 0
Found = Option CellKeyNode × State

module _ (e : Env) (f : FileInfo) where
  -- The loop over the children, which stops at the first key that is found.
  unfoldable pub first_found :
      (CellKeyNode → State → Outcome Found) → List CellKeyNode → State → Outcome Found
  first_found find [] st = ok (none, st)
  first_found find (child ∷ children) st = find child st >>= λ r. elim r.0 [
    | some key ↦ ok (some key, r.1)
    | none ↦ first_found find children r.1
  ]

  -- `get_sub_key_internal`, on fuel.
  unfoldable pub get_sub_key_internal :
      ℕ → Filter e.regexes → Option ℕ → CellKeyNode → State → Outcome Found
  unfolding first_found read_sub_keys_internal
  get_sub_key_internal zero filter sequence_num n st = no_fuel
  get_sub_key_internal (suc fuel) filter sequence_num n st = do
    r ← read_sub_keys_internal e f filter sequence_num false n st
    elim r.found_key [
      | true ↦ ok (get_elem? r.children 0, r.state)
      | false ↦ first_found (get_sub_key_internal fuel filter sequence_num) r.children r.state
    ]

  -- `build().unwrap_or_default()`.
  abbrev or_default : Outcome (Filter e.regexes) → Filter e.regexes
  or_default (ok filter) = filter
  or_default (err _) = record { reg_query = none }
  or_default panic = record { reg_query = none }
  or_default no_fuel = record { reg_query = none }

  unfoldable pub get_sub_key_by_path : CellKeyNode → List ℕ → State → Outcome Found
  unfolding get_sub_key_internal add_key_path build
  get_sub_key_by_path n [] st = ok (some n, st)
  get_sub_key_by_path n (c ∷ sub_path) st =
      get_sub_key_internal e.fuel
        (or_default (
          build (
            with_root (add_key_path new_builder ((fields n).path ++ backslash ∷ (c ∷ sub_path)))
              true)))
        none n st

  unfoldable pub get_root_key : Option ℕ → State → Outcome Found
  unfolding read
  get_root_key none st = ok (none, st)
  get_root_key (some root_cell_offset_relative) st = read e f st (record {
    offset = root_cell_offset_relative + f.hbin_offset_absolute;
    cur_path = [];
    filter = none;
    self_is_filter_match_or_descendent = true;
    sequence_num = none;
    get_deleted_and_modified = true;
  })

  -- `get_sub_key`: the first child that the filter of the name lets through.
  unfoldable pub get_sub_key : CellKeyNode → List ℕ → State → Outcome Found
  unfolding read_sub_keys_internal add_key_path build kept_root_path_offset
  get_sub_key n name st =
      let kept = kept_root_path_offset st.key_path_root_offset (fields n).path in
      expect (get_from (fields n).path kept) >>= λ path.
      build (add_key_path new_builder (path ++ backslash ∷ name)) >>= λ filter.
      read_sub_keys_internal e f filter none false n (record st { key_path_root_offset = kept })
      >>= λ r. ok (get_elem? r.children 0, r.state)

  -- The path below the root that `get_key` searches.
  unfoldable pub below_root : List ℕ → Bool → List ℕ
  unfolding trim_start find_backslash
  below_root key_path false = trim_start key_path
  below_root key_path true = elim (find_backslash (trim_start key_path)) [
    | some slash_offset ↦ drop (suc slash_offset) (trim_start key_path)
    | none ↦ []
  ]

  -- `get_key`. A root that cannot be read is no key, and no error.
  unfoldable pub get_key : Option ℕ → List ℕ → Bool → State → Outcome Found
  unfolding get_root_key get_sub_key_by_path below_root
  get_key root_cell key_path key_path_has_root st = elim (get_root_key root_cell st) [
    | ok (none, st') ↦ ok (none, st')
    | ok (some root, st') ↦ get_sub_key_by_path root (below_root key_path key_path_has_root) st'
    | err _ ↦ ok (none, st)
    | panic ↦ panic
    | no_fuel ↦ no_fuel
  ]

  -- `truncate` at the last backslash, where there is one.
  abbrev truncated : List ℕ → List ℕ
  truncated path = elim (before_last path) [ none ↦ path | some front ↦ front ]

  unfoldable pub get_parent_key : CellKeyNode → State → Outcome Found
  unfolding read before_last
  get_parent_key n st = read e f st (record {
    offset = list_offset (fields n).detail.parent_key_offset_relative f.hbin_offset_absolute;
    cur_path = truncated (truncated (fields n).path);
    filter = none;
    self_is_filter_match_or_descendent = true;
    sequence_num = none;
    get_deleted_and_modified = true;
  })
