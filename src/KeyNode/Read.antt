-- ===== src/KeyNode/Read.antt =====
-- src/cell_key_node.rs, `read_from_slice` and `read`: a key with its values and what recovery found of
-- it, unless the filter refuses it.
use notatin.Base.{
  ℕ, Bool, true, false, not, ◌&&◌, ◌||◌, Option, none, some, List, [], ◌∷◌, Bytes, get_from, ltb,
  ◌==◌, if◌then◌else◌, bit_and,
}
use notatin.Outcome.{Outcome, ok, ok_or, buffer, ◌>>=◌}
use notatin.Log.{lit, num, bytes, add, warning_parse}
use notatin.Nom.{Nom, finish}
use notatin.Parser.{FileInfo}
use notatin.Filter.{
  Regexes, Filter, is_valid, check_cell, filter_no_match, filter_iterate_keys, filter_key_match,
}
use notatin.KeyNode.{KeyFields, CellKeyNode, fields, with_fields, exact, is_key_root, from_bytes}
use notatin.KeyNode.Values.{read_values}
use notatin.KeyNode.Modified.{State, update_modified_lists}

-- What the reading of keys is given from outside the crate: the combinators of nom, the regular
-- expressions, and the hash of blake3. `fuel` bounds the recursions that the source does not bound.
pub record Env : Type 1 where
  pub nom : Nom
  pub regexes : Regexes
  pub blake3 : Bytes → Bytes
  pub fuel : ℕ

pub record CellKeyNodeReadOptions (e : Env) : Type 0 where
  pub offset : ℕ
  pub cur_path : List ℕ
  pub filter : Option (Filter e.regexes)
  pub self_is_filter_match_or_descendent : Bool
  pub sequence_num : Option ℕ
  pub get_deleted_and_modified : Bool

-- `FilterFlags::contains`.
abbrev pub contains : ℕ → ℕ → Bool
contains flags flag = bit_and flags flag == flag

module _ (e : Env) where
  unfoldable pub should_read_values : Option (Filter e.regexes) → ℕ → Bool → Bool
  unfolding is_valid
  should_read_values filter filter_flags self_is_filter_match_or_descendent =
      self_is_filter_match_or_descendent
      || (elim filter [ none ↦ true | some f ↦ not (is_valid f) ])
      || contains filter_flags filter_key_match

  -- The flags of the filter, and the offset that the state keeps.
  unfoldable pub filter_flags : State → Option (Filter e.regexes) → KeyFields → Outcome (ℕ × ℕ)
  unfolding check_cell
  filter_flags st none k = ok (filter_iterate_keys, st.key_path_root_offset)
  filter_flags st (some f) k = check_cell st.key_path_root_offset f (is_key_root k) k.path

  -- The values, with the warning where they cannot be read.
  unfoldable pub with_values : FileInfo → KeyFields → Option ℕ → Outcome KeyFields
  unfolding read_values
  with_values f k sequence_num = do
    r ← read_values e.nom e.blake3 f k sequence_num
    ok (record k {
      sub_values = r.sub_values;
      logs =
          if r.is_err
          then add warning_parse
              (lit "Unable to parse values for cell key node "
                ∷ bytes k.path
                ∷ lit " (offset: "
                ∷ num k.file_offset_absolute
                ∷ lit ")"
                ∷ [])
              r.logs
          else r.logs;
    })

  abbrev pub with_match : ℕ → KeyFields → KeyFields
  with_match flags k =
      if contains flags filter_key_match
      then record k { iteration_state = record k.iteration_state { filter_state = some exact } }
      else k

  -- The values, where the filter asks for them.
  unfoldable pub wanted_values :
      FileInfo → CellKeyNodeReadOptions e → ℕ → KeyFields → Outcome KeyFields
  unfolding should_read_values with_values
  wanted_values f options flags k =
      if ltb 0 k.detail.number_of_key_values
        && should_read_values options.filter flags options.self_is_filter_match_or_descendent
      then with_values f k options.sequence_num
      else ok k

  -- The part of `read_from_slice` behind the filter.
  unfoldable pub accept :
      FileInfo → State → CellKeyNodeReadOptions e → ℕ → CellKeyNode → Outcome CellKeyNode
  unfolding wanted_values update_modified_lists
  accept f st options flags n = do
    k ← wanted_values f options flags (fields n)
    let node = with_fields n (with_match flags k)
    elim options.get_deleted_and_modified [
      | true ↦ update_modified_lists e.fuel st node
      | false ↦ ok node
    ]

  -- `read_from_slice`. The state is changed by the filter alone.
  unfoldable pub read_from_slice :
      FileInfo → State → Bytes → CellKeyNodeReadOptions e → Outcome (Option CellKeyNode × State)
  unfolding from_bytes filter_flags accept
  read_from_slice f st slice options = do
    cell ←
        finish
          (from_bytes e.nom e.blake3 options.offset options.cur_path options.sequence_num slice)
    flags ← filter_flags st options.filter (fields cell.1)
    let st' = record st { key_path_root_offset = flags.1 }
    elim (contains flags.0 filter_no_match) [
      | true ↦ ok (none, st')
      | false ↦ accept f st' options flags.0 cell.1 >>= λ n. ok (some n, st')
    ]

  unfoldable pub read :
      FileInfo → State → CellKeyNodeReadOptions e → Outcome (Option CellKeyNode × State)
  unfolding read_from_slice
  read f st options = do
    slice ← ok_or (get_from f.buffer options.offset) (buffer "cell_key_node::read")
    read_from_slice f st slice options
