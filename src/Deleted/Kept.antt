-- ===== src/Deleted/Kept.antt =====
-- What the search for deleted cells changes of the state, and what it leaves as it was.
use notatin.Base.{
  ℕ, zero, suc, ◌+◌, ◌-◌, ◌≡◌, refl, Bool, ◌||◌, unsigned_abs, true, false, Option, none, some, [],
  ◌∷◌, Bytes, length, ltb, ◌==◌, drop,
}
use notatin.Outcome.{Outcome, ok, err, panic, no_fuel, ok_or, buffer}
use notatin.Nom.{IResult, done, failed, crash, finish}
use notatin.Parser.{FileInfo}
use notatin.Value.Cell.{
  CellState, deleted_primary_file, deleted_primary_file_slack, CellKeyValue, cell_key_value,
}
use notatin.KeyNode.{CellKeyNode, cell_key_node, fields}
use notatin.KeyNode.Modified.{State}
use notatin.KeyNode.Read.{Env, filter_flags, read_from_slice, accept, contains}
use notatin.Value.Read.{read_value_bytes}
use notatin.KeyNode.{with_fields, is_free}
use notatin.Filter.{filter_iterate_keys, filter_no_match}
use notatin.HiveBin.{hive_bin_header_from_bytes}
use notatin.Value.Cell
use notatin.KeyNode
use notatin.Deleted.Marks.{IsMarked, Kept, Kept-refl, Kept-trans, add_value-Kept, add_key-Kept}
use notatin.Deleted.Bins.{
  with_slice_at, read_slack, hbin_cell, hbin_loop, find_unused_cells_in_hbin, find_free_in_hbin,
  bins_loop, find_free_keys_and_values,
}
use notatin.Deleted.Gives.{
  Gives, Gives-ok, Gives-bind, Gives-test, Gives-else, Gives-option, Gives-read, after, Anything,
  any-Gives,
}
use notatin.Deleted.{
  Recovered, add_value, add_key, InSlack, CellType, cell_value, cell_key, deleted_options,
  value_read, key_read, read_cell_key_value, read_cell_key_node, slack_cell, find_cells_in_slack,
  value_slack_offset, key_slack_offset, value_is_free, slack_cell_type, read_cell_type,
  read_checked, read_range_checked,
}

-- The second part of what a step gives, against the state before it.
abbrev Moves : Recovered → (ℕ × Recovered) → Type 0
Moves st r = Kept st r.1

module _ (e : Env) (f : FileInfo) where
  read_from_slice-state :
      (st : State) (input : Bytes) (offset : ℕ)
      → Gives (λ r. r.1 ≡ st) (read_from_slice e f st input (deleted_options e f offset))
  unfolding read_from_slice filter_flags
  read_from_slice-state st input offset =
      Gives-bind Anything (λ r. r.1 ≡ st)
        (finish (notatin.KeyNode.from_bytes e.nom e.blake3 offset [] none input)) _ (any-Gives _)
        λ cell _.
          Gives-test (λ (r : Option CellKeyNode × State). r.1 ≡ st)
            (contains filter_iterate_keys filter_no_match) _ _
            (Gives-ok (λ r. r.1 ≡ st) (none, st) refl)
            (Gives-bind Anything (λ r. r.1 ≡ st)
              (accept e f st (deleted_options e f offset) filter_iterate_keys cell.1) _
              (any-Gives _) λ n _. Gives-ok (λ r. r.1 ≡ st) (some n, st) refl)

  module _ (in_slack : InSlack e f)
      (keeps : (input : Bytes) (offset : ℕ) (st : Recovered)
        → Gives (Kept st) (in_slack input offset st)) where
    value_read-Kept :
        (offset : ℕ) (s : CellState) (force_add : Bool) (st : Recovered) (r : IResult CellKeyValue)
        → IsMarked s
        → Gives (Moves st) (value_read e f in_slack offset s force_add st r)
    unfolding value_read
    value_read-Kept offset s force_add st (done rest (cell_key_value v older)) marked =
        Gives-bind (Kept st) (Moves st) (in_slack v.detail.slack (value_slack_offset v) st) _
          (keeps v.detail.slack (value_slack_offset v) st)
          λ st' kept.
            Gives-test (Moves st) (force_add || value_is_free v) _ _
              (Gives-bind Anything (Moves st)
                (read_value_bytes e.nom e.blake3 f (cell_key_value v older)) _ (any-Gives _)
                λ value _. Gives-ok (Moves st) _ (
                  Kept-trans st st' (add_value s value st') kept
                    (add_value-Kept s value st' marked)))
              (Gives-ok (Moves st) _ kept)
    value_read-Kept offset s force_add st (failed x) marked =
        Gives-ok (Moves st) _ (refl, refl, refl, λ m. m)
    value_read-Kept offset s force_add st crash marked = λ r e. absurd cc

    key_read-Kept :
        (offset : ℕ) (s : CellState) (force_add : Bool) (st : Recovered)
        → (r : Outcome (Option CellKeyNode × State)) → IsMarked s
        → Gives (λ t. t.1 ≡ st.state) r
        → Gives (Moves st) (key_read e f in_slack offset s force_add st r)
    unfolding key_read
    key_read-Kept offset s force_add st (ok (none, state)) marked same =
        let eq : state ≡ st.state = same (none, state) refl in
        Gives-ok (Moves st) _ (rw eq (Kept-refl st))
    key_read-Kept offset s force_add st (ok (some n, state)) marked same =
        let eq : state ≡ st.state = same (some n, state) refl in
        rw eq (
          Gives-bind (Kept st) (Moves st)
            (in_slack (fields n).detail.slack (key_slack_offset (fields n)) st) _
            (keeps (fields n).detail.slack (key_slack_offset (fields n)) st)
            λ st' kept.
              Gives-test (Moves st) (force_add || is_free (fields n)) _ _
                (Gives-ok (Moves st) _
                  (Kept-trans st st' (add_key s n st') kept (add_key-Kept s n st' marked)))
                (Gives-ok (Moves st) _ kept))
    key_read-Kept offset s force_add st (err detail) marked same =
        Gives-ok (Moves st) _ (refl, refl, refl, λ m. m)
    key_read-Kept offset s force_add st panic marked same = λ r e. absurd cc
    key_read-Kept offset s force_add st no_fuel marked same = λ r e. absurd cc

    slack_cell-Kept :
        (t : CellType) (input : Bytes) (offset : ℕ) (st : Recovered)
        → Gives (Moves st) (slack_cell e f in_slack t input offset st)
    unfolding slack_cell read_cell_key_value read_cell_key_node
    slack_cell-Kept cell_value input offset st =
        value_read-Kept offset deleted_primary_file_slack true st _ tt
    slack_cell-Kept cell_key input offset st =
        key_read-Kept offset deleted_primary_file_slack true st _ tt
          (read_from_slice-state st.state input offset)
    slack_cell-Kept _ input offset st = Gives-ok (Moves st) _ (Kept-refl st)

  find_cells_in_slack-Kept :
      (fuel : ℕ) (input : Bytes) (offset : ℕ) (st : Recovered)
      → Gives (Kept st) (find_cells_in_slack e f fuel input offset st)
  unfolding find_cells_in_slack
  find_cells_in_slack-Kept zero input offset st = λ r eq. absurd cc
  find_cells_in_slack-Kept (suc fuel) [] offset st = Gives-ok (Kept st) st (Kept-refl st)
  find_cells_in_slack-Kept (suc fuel) (b ∷ bs) offset st =
      Gives-read (Kept st) (e.nom.le_i32 (b ∷ bs)) _ _
        (λ rest size.
          Gives-bind (Moves st) (Kept st)
            (slack_cell e f (find_cells_in_slack e f fuel) (slack_cell_type rest) (b ∷ bs) offset
              st)
            _
            (slack_cell-Kept (find_cells_in_slack e f fuel) (find_cells_in_slack-Kept fuel)
              (slack_cell_type rest) (b ∷ bs) offset st)
            λ r kept.
              after (Kept st) (Kept r.1) _ (λ t. Kept-trans st r.1 t kept)
                (find_cells_in_slack-Kept fuel (drop r.0 (b ∷ bs)) (offset + r.0) r.1))
        (Gives-ok (Kept st) st (Kept-refl st))

  with_slice_at-Kept :
      (read_cell : Bytes → Outcome (ℕ × Recovered)) (offset : ℕ) (st : Recovered)
      → ((slack : Bytes) → Gives (Moves st) (read_cell slack))
      → Gives (Kept st) (with_slice_at e f read_cell offset st)
  unfolding with_slice_at
  with_slice_at-Kept read_cell offset st h =
      Gives-bind Anything (Kept st) (read_checked f.buffer offset) _ (any-Gives _) λ found _.
        Gives-option (Kept st) found _ _
          (λ slack.
            Gives-bind (Moves st) (Kept st) (read_cell slack) _ (h slack)
              λ r kept. Gives-ok (Kept st) r.1 kept)
          (Gives-ok (Kept st) st (Kept-refl st))

  read_slack-Kept :
      (offset size : ℕ) (st : Recovered) → Gives (Kept st) (read_slack e f offset size st)
  unfolding read_slack
  read_slack-Kept offset size st =
      Gives-bind Anything (Kept st) (read_range_checked f.buffer offset size) _ (any-Gives _)
        λ found _.
          Gives-option (Kept st) found _ _
            (λ slack. find_cells_in_slack-Kept (suc (length f.buffer)) slack offset st)
            (Gives-ok (Kept st) st (Kept-refl st))

  hbin_cell-Kept :
      (t : CellType) (offset size : ℕ) (st : Recovered)
      → Gives (Kept st) (hbin_cell e f t offset size st)
  unfolding hbin_cell read_cell_key_value read_cell_key_node
  hbin_cell-Kept cell_value offset size st = with_slice_at-Kept _ offset st λ slack.
      value_read-Kept (find_cells_in_slack e f (suc (length f.buffer)))
        (find_cells_in_slack-Kept (suc (length f.buffer))) offset deleted_primary_file false st
        (notatin.Value.Cell.from_bytes e.nom offset none slack) tt
  hbin_cell-Kept cell_key offset size st = with_slice_at-Kept _ offset st λ slack.
      key_read-Kept (find_cells_in_slack e f (suc (length f.buffer)))
        (find_cells_in_slack-Kept (suc (length f.buffer))) offset deleted_primary_file false st _ tt
        (read_from_slice-state st.state slack offset)
  hbin_cell-Kept _ offset size st = read_slack-Kept offset size st

  hbin_loop-Kept :
      (fuel : ℕ) (input : Bytes) (offset hbin_max : ℕ) (st : Recovered)
      → Gives (Moves st) (hbin_loop e f fuel input offset hbin_max st)
  unfolding hbin_loop
  hbin_loop-Kept zero input offset hbin_max st = λ r eq. absurd cc
  hbin_loop-Kept (suc fuel) input offset hbin_max st =
      Gives-else (Moves st) (ltb offset hbin_max) _ _
        (Gives-bind Anything (Moves st) (finish (e.nom.le_i32 input)) _ (any-Gives _) λ r _.
          Gives-test (Moves st) (unsigned_abs r.1 == 0) _ _ (Gives-ok (Moves st) _ (Kept-refl st)) (
            Gives-bind (Kept st) (Moves st)
              (hbin_cell e f (read_cell_type r.0) offset (unsigned_abs r.1) st) _
              (hbin_cell-Kept (read_cell_type r.0) offset (unsigned_abs r.1) st)
              λ st' kept.
                Gives-bind Anything (Moves st)
                  (read_range_checked f.buffer (offset + unsigned_abs r.1) (unsigned_abs r.1)) _
                  (any-Gives _)
                  λ next _.
                    Gives-option (Moves st) next _ _
                      (λ input'.
                        after (Moves st) (Moves st') _ (λ t. Kept-trans st st' t.1 kept)
                          (hbin_loop-Kept fuel input' (offset + unsigned_abs r.1) hbin_max st'))
                      (Gives-ok (Moves st) _ kept)))
        (Gives-ok (Moves st) _ (Kept-refl st))

  find_free_in_hbin-Kept :
      (offset : ℕ) (st : Recovered) → Gives (Moves st) (find_free_in_hbin e f offset st)
  unfolding find_free_in_hbin find_unused_cells_in_hbin
  find_free_in_hbin-Kept offset st =
      Gives-bind Anything (Moves st) (read_checked f.buffer offset) _ (any-Gives _) λ found _.
        Gives-bind Anything (Moves st) (ok_or found (buffer "find_free_keys_and_values")) _
          (any-Gives _)
          λ slice _.
            Gives-bind Anything (Moves st) (finish (hive_bin_header_from_bytes e.nom f slice)) _
              (any-Gives _)
              λ r _.
                Gives-bind Anything (Moves st)
                  (read_checked f.buffer (length f.buffer - length r.0)) _ (any-Gives _)
                  λ found' _.
                    Gives-bind Anything (Moves st)
                      (ok_or found' (buffer "find_unused_cells_in_hbin: initial")) _ (any-Gives _)
                      λ input _.
                        hbin_loop-Kept (suc (length f.buffer)) input _ (offset + r.1.size) st

  bins_loop-Kept :
      (fuel offset hive_bins_size : ℕ) (st : Recovered)
      → Gives (Kept st) (bins_loop e f fuel offset hive_bins_size st)
  unfolding bins_loop
  bins_loop-Kept zero offset hive_bins_size st = λ r eq. absurd cc
  bins_loop-Kept (suc fuel) offset hive_bins_size st =
      Gives-else (Kept st) (ltb offset hive_bins_size) _ _
        (Gives-bind (Moves st) (Kept st) (find_free_in_hbin e f offset st) _
          (find_free_in_hbin-Kept offset st)
          λ r kept.
            after (Kept st) (Kept r.1) _ (λ t. Kept-trans st r.1 t kept)
              (bins_loop-Kept fuel r.0 hive_bins_size r.1))
        (Gives-ok (Kept st) st (Kept-refl st))

  -- Whatever the search for deleted cells gives, it leaves the maps of modified keys and values and the
  -- kept root offset as they were; and if every key and value in the maps of deleted cells was marked as
  -- deleted in the primary file or its slack, so is every one afterwards.
  pub find_free_keys_and_values-Kept :
      (hive_bins_size : ℕ) (st st' : Recovered)
      → find_free_keys_and_values e f hive_bins_size st ≡ ok st'
      → Kept st st'
  unfolding find_free_keys_and_values
  find_free_keys_and_values-Kept hive_bins_size st st' h =
      bins_loop-Kept (suc (length f.buffer)) f.hbin_offset_absolute hive_bins_size st st' h
