-- ===== src/TransactionLog/Replay.antt =====
-- src/transaction_log.rs, `TransactionLog::update_parser`: the entries of a log applied to the buffer
-- of the primary file. The search for modified and deleted cells after each entry
-- (`TransactionAnalyzer`) is the interface `Analysis`.
pub mod Selected
pub mod Loop
pub mod Pages
pub mod Total
use notatin.Base.{
  ℕ, ◌+◌, ◌-◌, ◌%◌, ◌^◌, String, Bool, true, false, not, ◌&&◌, Option, none, some, ◌⊎◌, inl, inr,
  List, [], ◌∷◌, ◌++◌, Bytes, length, replicate, write_at, ltb, leb, ◌==◌, if◌then◌else◌,
}
use notatin.Outcome.{Error, Outcome, ok, err, panic, no_fuel, buffer, ◌>>=◌}
use notatin.Log.{Logs, Part, lit, num, add, extend, warning_transaction_log}
use notatin.BaseBlock.{Guids}
use notatin.Parser.{FileInfo, Parser, with_buffer, log_to, get_base_block_info}
use notatin.TransactionLog.{DirtyPage, LogEntry, TransactionLog}

-- What an analysis leaves: the parser's other fields and its logs, the items that it was given to
-- change, the logs of its own, and the updated items or an error, as the text that `{:?}` prints.
pub record Analysed (S Items : Type 0) : Type 0 where
  pub rest : S
  pub info : Logs
  pub items : Items
  pub logs : Logs
  pub result : Items ⊎ List Part

-- The parts of the crate that recovery calls: `get_reg_items` for a file whose deleted items are
-- wanted, `TransactionAnalyzer::get_latest_reg_items`, `find_free_keys_and_values` and `init_root`.
-- They change no buffer and no header.
pub record Analysis (S : Type 0) : Type 1 where
  pub Items : Type 0
  pub no_items : Items
  pub reg_items : FileInfo → ℕ → S → Logs → Outcome (S × Logs × Items)
  pub latest_reg_items : FileInfo → ℕ → FileInfo → S → Logs → Items → Outcome (Analysed S Items)
  pub find_free : FileInfo → ℕ → S → Logs → Outcome (S × Logs)
  pub read_root : FileInfo → S → Logs → Outcome (S × Logs)

-- What the loop does with an entry.
pub data Verdict : Type 0 where
  apply : Verdict
  skip stop : List Part → Verdict

-- The conditions of the loop, in its order. `new_sequence_number + 1` is an `u32`.
unfoldable pub verdict : ℕ → ℕ → LogEntry → Verdict
verdict secondary new_sequence_number e =
    if not e.has_valid_hashes
    then stop (
        lit "Stopping log entry processing; hash mismatch at log entry with sequence number "
        ∷ num e.sequence_number
        ∷ [])
    else if ltb e.sequence_number secondary
    then skip (
        lit "Skipping log entry; the log entry sequence number ("
        ∷ num e.sequence_number
        ∷ lit ") is less than to the primary file's secondary sequence number ("
        ∷ num secondary
        ∷ lit ")"
        ∷ [])
    else if not (e.hive_bins_data_size % 4096 == 0)
    then stop (
        lit "Stopping log entry processing; the hive_bin_data_size ("
        ∷ num e.hive_bins_data_size
        ∷ lit ") is not a multiple of 4096)"
        ∷ [])
    else if not (new_sequence_number == 0)
        && not (e.sequence_number == (new_sequence_number + 1) % 2 ^ 32)
    then stop (
        lit "Stopping log entry processing; the sequence number ("
        ∷ num e.sequence_number
        ∷ lit ") does not follow the previous log entry's sequence number ("
        ∷ num new_sequence_number
        ∷ lit ")"
        ∷ [])
    else apply

-- `Vec::resize` by the difference to the size that the primary file's header states.
abbrev pub grow : ℕ → LogEntry → Bytes → Bytes
grow primary_size e bytes =
    if ltb primary_size e.hive_bins_data_size
    then bytes ++ replicate (e.hive_bins_data_size - primary_size) 0
    else bytes

-- One dirty page: `get_mut` of its place, and the copy.
unfoldable pub apply_page : ℕ → DirtyPage → Bytes → Outcome Bytes
apply_page hbin_offset page bytes =
    let dst_offset = page.dirty_page_ref_offset + hbin_offset in
    if leb (dst_offset + length page.page_bytes) (length bytes)
    then ok (write_at bytes dst_offset page.page_bytes)
    else err (buffer "update_parser")

unfoldable pub apply_pages : ℕ → List DirtyPage → Bytes → Outcome Bytes
unfolding apply_page
apply_pages hbin_offset [] bytes = ok bytes
apply_pages hbin_offset (page ∷ pages) bytes =
    apply_page hbin_offset page bytes >>= λ bytes'. apply_pages hbin_offset pages bytes'

-- The buffer after one entry.
unfoldable pub patch : ℕ → ℕ → LogEntry → Bytes → Outcome Bytes
unfolding apply_pages
patch hbin_offset primary_size e bytes =
    apply_pages hbin_offset e.dirty_pages (grow primary_size e bytes)

-- The `match` on the result of an analysis.
unfoldable pub analysis_info : {S Items : Type 0} → ℕ → Analysed S Items → Logs
analysis_info new_sequence_number r = elim r.result [
  | inl updated ↦ r.info
  | inr printed ↦
      add warning_transaction_log
        (lit "Unable to read cell tree for new sequence number "
          ∷ num new_sequence_number
          ∷ lit ", "
          ∷ printed)
        r.info
]

unfoldable pub analysis_items : {S Items : Type 0} → Analysed S Items → Items
analysis_items r = elim r.result [ inl updated ↦ updated | inr printed ↦ r.items ]

module _ {g : Guids} {S : Type 0} (a : Analysis S) where
  -- The analysis after an entry, with the file as it was before the pages were written.
  unfoldable pub analyse : ℕ → FileInfo → Parser g S → a.Items → Outcome (Parser g S × a.Items)
  unfolding analysis_info analysis_items
  analyse new_sequence_number prior p items =
      a.latest_reg_items prior new_sequence_number p.file_info p.rest p.info items >>= λ r. ok (
        record p { rest = r.rest; info = extend (analysis_info new_sequence_number r) r.logs },
        analysis_items r,
      )

  -- What follows the writing of the pages.
  unfoldable pub conclude :
      ℕ → LogEntry → Parser g S → a.Items → Bytes → Outcome (Parser g S × a.Items)
  unfolding analyse
  conclude primary_size e p items bytes = elim p.recover_deleted [
    | false ↦ ok (with_buffer p bytes, items)
    | true ↦
        let prior = record p.file_info { buffer = grow primary_size e p.file_info.buffer } in
        analyse e.sequence_number prior (with_buffer p bytes) items
  ]

  -- An entry that is applied.
  unfoldable pub apply_entry : ℕ → LogEntry → Parser g S → a.Items → Outcome (Parser g S × a.Items)
  unfolding patch conclude
  apply_entry primary_size e p items =
      patch p.file_info.hbin_offset_absolute primary_size e p.file_info.buffer >>= λ bytes.
      conclude primary_size e p items bytes

  -- The loop over the entries.
  unfoldable pub entry_loop :
      ℕ → ℕ → ℕ → List LogEntry → Parser g S → a.Items → Outcome (Parser g S × ℕ × a.Items)
  unfolding verdict apply_entry
  entry_loop secondary primary_size new_sequence_number [] p items =
      ok (p, new_sequence_number, items)
  entry_loop secondary primary_size new_sequence_number (e ∷ entries) p items =
      elim (verdict secondary new_sequence_number e) [
        | skip text ↦
            entry_loop secondary primary_size new_sequence_number entries
              (log_to p (add warning_transaction_log text p.info)) items
        | stop text ↦
            ok (log_to p (add warning_transaction_log text p.info), new_sequence_number, items)
        | apply ↦ apply_entry primary_size e p items >>= λ r.
            entry_loop secondary primary_size e.sequence_number entries r.0 r.1
      ]

  -- `TransactionLog::update_parser`.
  unfoldable pub update_parser :
      TransactionLog → Parser g S → a.Items → Outcome (Parser g S × ℕ × a.Items)
  unfolding entry_loop
  update_parser log p items =
      get_base_block_info p >>= λ i. entry_loop i.0 i.1 0 log.log_entries p items
