-- ===== src/Recovery/Tests.antt =====
-- A recovery with one log that is older than the file, though its entry is not.
use notatin.Base.{◌≡◌, refl, false, some, [], ◌∷◌, arith}
use notatin.Outcome.{ok}
use notatin.Log.{empty}
use notatin.Nom.Reader.{reader}
use notatin.BaseBlock.Sample.{plain_guids, header, blank_file, blank_file-IsBytes}
use notatin.Parser.{Parser}
use notatin.Parser.Header.{rewritten}
use notatin.Parser.Tests.{blank_file-Readable}
use notatin.Parser.Update.{Consistent}
use notatin.TransactionLog.Tests.{quiet, log_of, entry}
use notatin.Recovery.{apply_transaction_logs}
use notatin.Recovery.Skipped.{apply_transaction_logs-skipped}

abbrev dirty : Parser plain_guids (Unit {0})
dirty = record {
  file_info = record { hbin_offset_absolute = 4096; buffer = blank_file };
  info = empty;
  rest = tt;
  base_block = some (header 9 5 4096);
  recover_deleted = false;
}

apply_transaction_logs-skipped_example :
    (p' : Parser plain_guids (Unit {0})) × (apply_transaction_logs reader quiet false
        (log_of 4 (entry 6 (7 ∷ []) ∷ []) ∷ [])
        dirty
      ≡ ok p')
    × Consistent 0 p'
    × (p'.file_info.buffer ≡ rewritten 0 blank_file)
apply_transaction_logs-skipped_example =
    apply_transaction_logs-skipped reader quiet (log_of 4 (entry 6 (7 ∷ []) ∷ [])) [] dirty
      (header 9 5 4096) refl refl (omega arith) (omega arith, tt) blank_file-IsBytes
      blank_file-Readable
