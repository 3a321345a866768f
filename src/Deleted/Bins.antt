-- ===== src/Deleted/Bins.antt =====
-- src/parser_recover_deleted.rs, the walk over the cells of a hive bin, and `find_free_keys_and_values`
-- of src/parser.rs, the walk over the bins.
use notatin.Base.{
  ℕ, zero, suc, ◌+◌, ◌-◌, true, false, none, some, Bytes, length, ltb, ◌==◌, unsigned_abs,
}
use notatin.Outcome.{Outcome, ok, no_fuel, ok_or, buffer, ◌>>=◌ as bind}
use notatin.Nom.{finish}
use notatin.Parser.{FileInfo}
use notatin.HiveBin.{hive_bin_header_from_bytes}
use notatin.Value.Cell.{deleted_primary_file}
use notatin.KeyNode.Read.{Env}
use notatin.Deleted.{
  CellType, cell_value, cell_key, read_cell_type, read_range_checked, read_checked, Recovered,
  read_cell_key_value, read_cell_key_node, find_cells_in_slack,
}

module _ (e : Env) (f : FileInfo) where
  -- The three arms of the match on the type of a cell.
  unfoldable pub with_slice_at :
      (Bytes → Outcome (ℕ × Recovered)) → ℕ → Recovered → Outcome Recovered
  unfolding read_checked
  with_slice_at read_cell offset st =
      bind (read_checked f.buffer offset)
        λ found. elim found [ some slack ↦ bind (read_cell slack) λ r. ok r.1 | none ↦ ok st ]

  unfoldable pub read_slack : ℕ → ℕ → Recovered → Outcome Recovered
  unfolding read_range_checked find_cells_in_slack
  read_slack offset size st = bind (read_range_checked f.buffer offset size) λ found. elim found [
    | some slack ↦ find_cells_in_slack e f (suc (length f.buffer)) slack offset st
    | none ↦ ok st
  ]

  unfoldable pub hbin_cell : CellType → ℕ → ℕ → Recovered → Outcome Recovered
  unfolding with_slice_at read_slack read_cell_key_value read_cell_key_node find_cells_in_slack
  hbin_cell cell_value offset size st =
      with_slice_at
        (λ slack.
          read_cell_key_value e f (find_cells_in_slack e f (suc (length f.buffer))) slack offset
            deleted_primary_file false st)
        offset st
  hbin_cell cell_key offset size st =
      with_slice_at
        (λ slack.
          read_cell_key_node e f (find_cells_in_slack e f (suc (length f.buffer))) slack offset
            deleted_primary_file false st)
        offset st
  hbin_cell _ offset size st = read_slack offset size st

  -- The loop of `find_unused_cells_in_hbin`. The next input is as long as the cell before it.
  unfoldable pub hbin_loop : ℕ → Bytes → ℕ → ℕ → Recovered → Outcome (ℕ × Recovered)
  unfolding hbin_cell read_cell_type read_range_checked
  hbin_loop zero input offset hbin_max st = no_fuel
  hbin_loop (suc fuel) input offset hbin_max st = elim (ltb offset hbin_max) [
    | false ↦ ok (offset, st)
    | true ↦ bind (finish (e.nom.le_i32 input)) λ r. elim (unsigned_abs r.1 == 0) [
      | true ↦ ok (offset, st)
      | false ↦ bind (hbin_cell (read_cell_type r.0) offset (unsigned_abs r.1) st) λ st'.
          bind (read_range_checked f.buffer (offset + unsigned_abs r.1) (unsigned_abs r.1)) λ next.
            elim next [
              | some input ↦ hbin_loop fuel input (offset + unsigned_abs r.1) hbin_max st'
              | none ↦ ok (offset + unsigned_abs r.1, st')
            ]
    ]
  ]

  unfoldable pub find_unused_cells_in_hbin : ℕ → ℕ → Recovered → Outcome (ℕ × Recovered)
  unfolding hbin_loop read_checked
  find_unused_cells_in_hbin offset hbin_max st = bind (read_checked f.buffer offset) λ found.
      bind (ok_or found (buffer "find_unused_cells_in_hbin: initial"))
        λ input. hbin_loop (suc (length f.buffer)) input offset hbin_max st

  -- `ParserRecoverDeleted::find_free_keys_and_values`, for one bin.
  unfoldable pub find_free_in_hbin : ℕ → Recovered → Outcome (ℕ × Recovered)
  unfolding find_unused_cells_in_hbin hive_bin_header_from_bytes read_checked
  find_free_in_hbin offset st = bind (read_checked f.buffer offset) λ found.
      bind (ok_or found (buffer "find_free_keys_and_values")) λ slice.
        bind (finish (hive_bin_header_from_bytes e.nom f slice))
          λ r. find_unused_cells_in_hbin (length f.buffer - length r.0) (offset + r.1.size) st

  -- `Parser::find_free_keys_and_values`: the bins from an offset on.
  unfoldable pub bins_loop : ℕ → ℕ → ℕ → Recovered → Outcome Recovered
  unfolding find_free_in_hbin
  bins_loop zero offset hive_bins_size st = no_fuel
  bins_loop (suc fuel) offset hive_bins_size st = elim (ltb offset hive_bins_size) [
    | false ↦ ok st
    | true ↦ bind (find_free_in_hbin offset st) λ r. bins_loop fuel r.0 hive_bins_size r.1
  ]

  unfoldable pub find_free_keys_and_values : ℕ → Recovered → Outcome Recovered
  unfolding bins_loop
  find_free_keys_and_values hive_bins_size st =
      bins_loop (suc (length f.buffer)) f.hbin_offset_absolute hive_bins_size st
