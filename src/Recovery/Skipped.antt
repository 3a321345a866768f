-- ===== src/Recovery/Skipped.antt =====
-- Recovery with logs of which none is applied.
use notatin.Base.{
  ℕ, ◌<◌, ◌≡◌, ◌≢◌, refl, ◌==◌, true, false, some, List, [], ◌∷◌, IsBytes, lt→leb_false, arith,
}
use notatin.Outcome.{ok, ◌>>=◌}
use notatin.Log.{Logs, add, warning_transaction_log}
use notatin.Nom.{Nom}
use notatin.BaseBlock.{Guids, BaseBlock}
use notatin.Parser.{Parser, log_to, get_base_block_info}
use notatin.Parser.Header.{Readable, rewritten}
use notatin.Parser.Update.{Consistent, update_header-rewritten}
use notatin.TransactionLog.{TransactionLog, log_number}
use notatin.TransactionLog.Replay.{Analysis}
use notatin.Recovery.{
  too_old, log_loop, get_reg_items, replay_logs, check_numbers, prepare_transaction_logs,
  apply_transaction_logs,
}

-- Every log is older than the primary file.
abbrev pub AllOld : ℕ → List TransactionLog → Type 0
AllOld secondary [] = Unit
AllOld secondary (log ∷ logs) = (log_number log < secondary) × AllOld secondary logs

==_no : (a b : ℕ) → a ≢ b → (a == b) ≡ false
==_no a b h = ground arith

module _ (nom : Nom) {g : Guids} {S : Type 0} (a : Analysis S) where
  log_loop_old :
      (secondary n : ℕ) (logs : List TransactionLog) (p : Parser g S) (items : a.Items)
      → AllOld secondary logs
      → (info : Logs) × (log_loop a secondary n logs p items ≡ ok (log_to p info, n))
  unfolding log_loop
  log_loop_old secondary n [] p items h = (p.info, refl)
  log_loop_old secondary n (log ∷ logs) p items h =
      let (info, e) =
        log_loop_old secondary n logs
          (log_to p (add warning_transaction_log (too_old secondary log) p.info)) items h.1 in
      (info, rw (lt→leb_false secondary (log_number log) h.0, log_loop) e)

  -- A parser that does not look for deleted cells holds a file of bytes whose header can be read and
  -- whose checksum was found to be good, and a header whose two numbers differ. If every log, of one
  -- or more, is older than the secondary number, recovery succeeds and applies no page of them: the
  -- buffer differs from the file's in the three words that are rewritten alone, the two sequence
  -- numbers, which are 0 now, and the checksum. The parser holds the header with both numbers 0.
  pub apply_transaction_logs-skipped :
      (log : TransactionLog) (logs : List TransactionLog) (p : Parser g S) (b : BaseBlock g)
      → p.base_block ≡ some b
      → p.recover_deleted ≡ false
      → b.base.primary_sequence_number ≢ b.base.secondary_sequence_number
      → AllOld b.base.secondary_sequence_number (log ∷ logs)
      → IsBytes p.file_info.buffer
      → Readable p.file_info.buffer
      → (p' : Parser g S) × (apply_transaction_logs nom a false (log ∷ logs) p ≡ ok p')
        × Consistent 0 p'
        × (p'.file_info.buffer ≡ rewritten 0 p.file_info.buffer)
  unfolding apply_transaction_logs prepare_transaction_logs check_numbers replay_logs get_reg_items
      get_base_block_info
  apply_transaction_logs-skipped log logs p b has kept differ old bytes r =
      let (info, skipped) =
        log_loop_old b.base.secondary_sequence_number 0 (log ∷ logs) p a.no_items old in
      let (p', e, cons, same, _, _) =
        update_header-rewritten nom 0 (omega arith) (log_to p info) bytes r in
      let numbers : get_base_block_info p
          ≡ ok (b.base.secondary_sequence_number, b.base.hive_bins_data_size) =
        rw (has, ◌>>=◌) in
      let prepared : prepare_transaction_logs nom false (log ∷ logs) p ≡ ok (p, log ∷ logs, true) =
        simp (
          has,
          ==_no b.base.primary_sequence_number b.base.secondary_sequence_number differ,
          ◌>>=◌,
        ) in
      let items : get_reg_items a 0 p ≡ ok (p, a.no_items) = simp (kept, get_reg_items) in
      (
        p',
        rw (prepared, items, numbers, skipped, e, ◌>>=◌, apply_transaction_logs, replay_logs),
        cons,
        same,
      )
