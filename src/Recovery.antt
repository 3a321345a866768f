-- ===== src/Recovery.antt =====
-- src/parser.rs, recovery: `prepare_transaction_logs`, `handle_bad_checksum`, `apply_transaction_logs`
-- and `init`, which calls them. What is written to the console is left out.
pub mod Skipped
pub mod Tests
use notatin.Base.{
  ℕ, suc, ◌+◌, ◌%◌, ◌^◌, Bool, true, false, ◌||◌, Option, none, some, List, [], ◌∷◌, Bytes, length,
  write_at, get_range, ltb, leb, ◌==◌, if◌then◌else◌,
}
use notatin.Outcome.{Outcome, ok, err, panic, buffer, expect, ok_or, ◌>>=◌}
use notatin.Log.{Logs, Part, lit, num, add, warning_transaction_log, warning_base_block}
use notatin.Nom.{Nom}
use notatin.BaseBlock.{Guids, base_block_len}
use notatin.Parser.{
  FileInfo, Parser, with_buffer, log_to, copy_into, get_base_block_info, init_base_block,
  update_header,
}
use notatin.TransactionLog.{TransactionLog, log_number}
use notatin.TransactionLog.Replay.{Analysis, update_parser}

abbrev last_log : List TransactionLog → Option TransactionLog
last_log [] = none
last_log (l ∷ []) = some l
last_log (l ∷ m ∷ logs) = last_log (m ∷ logs)

-- `if parsed_transaction_logs.len() > 1 { parsed_transaction_logs.remove(0); }`.
abbrev without_first : List TransactionLog → List TransactionLog
without_first [] = []
without_first (l ∷ []) = l ∷ []
without_first (l ∷ m ∷ logs) = m ∷ logs

module _ (nom : Nom) {g : Guids} {S : Type 0} where
  -- `handle_bad_checksum`: the header of the newest log replaces that of the file.
  unfoldable pub handle_bad_checksum :
      List TransactionLog → Parser g S → Outcome (Parser g S × List TransactionLog)
  unfolding init_base_block copy_into
  handle_bad_checksum logs p = do
    newest ← expect (last_log logs)
    slice ← ok_or (get_range p.file_info.buffer 0 base_block_len) (buffer "handle_bad_checksum")
    bytes ←
        if length newest.base_block_bytes == length slice
        then copy_into p.file_info.buffer 0 newest.base_block_bytes
        else panic
    read ← init_base_block nom (
        log_to (with_buffer p bytes)
          (add warning_base_block (lit "Applying recovered base block" ∷ []) p.info))
    ok (read.0, without_first logs)

  -- The end of `prepare_transaction_logs`: whether there is anything to recover.
  unfoldable pub check_numbers :
      Parser g S × List TransactionLog → Outcome (Parser g S × List TransactionLog × Bool)
  check_numbers (p, logs) = expect p.base_block >>= λ b. ok (
      if b.base.primary_sequence_number == b.base.secondary_sequence_number
      then (
        log_to p (
            add warning_transaction_log
              (lit
                  "Skipping transaction logs because the primary file's primary_sequence_number matches the secondary_sequence_number"
                ∷ [])
              p.info),
        logs,
        false,
      )
      else (p, logs, true))

  -- `prepare_transaction_logs`.
  unfoldable pub prepare_transaction_logs :
      Bool → List TransactionLog → Parser g S → Outcome (Parser g S × List TransactionLog × Bool)
  unfolding handle_bad_checksum check_numbers
  prepare_transaction_logs true logs p = handle_bad_checksum logs p >>= check_numbers
  prepare_transaction_logs false logs p = check_numbers (p, logs)

abbrev pub too_old : ℕ → TransactionLog → List Part
too_old secondary log =
    lit "Skipping log file; the log's primary sequence number ("
    ∷ num (log_number log)
    ∷ lit ") is less than the primary file's secondary sequence number ("
    ∷ num secondary
    ∷ lit ")"
    ∷ []

abbrev pub not_next : ℕ → TransactionLog → List Part
not_next n log =
    lit "Skipping log file; the log's primary sequence number ("
    ∷ num (log_number log)
    ∷ lit ") does not follow the previous log's last sequence number ("
    ∷ num n
    ∷ lit ")"
    ∷ []

module _ {g : Guids} {S : Type 0} (a : Analysis S) where
  -- The loop over the logs. `new_sequence_number + 1` is an `u32`.
  unfoldable pub log_loop :
      ℕ → ℕ → List TransactionLog → Parser g S → a.Items → Outcome (Parser g S × ℕ)
  unfolding update_parser
  log_loop secondary n [] p items = ok (p, n)
  log_loop secondary n (log ∷ logs) p items = elim (leb secondary (log_number log)) [
    | true ↦ elim (n == 0 || (log_number log == (n + 1) % 2 ^ 32)) [
      | true ↦ update_parser a log p items >>= λ r. log_loop secondary r.1 logs r.0 r.2
      | false ↦
          log_loop secondary n logs (log_to p (add warning_transaction_log (not_next n log) p.info))
            items
    ]
    | false ↦
        log_loop secondary n logs
          (log_to p (add warning_transaction_log (too_old secondary log) p.info)) items
  ]

  -- `TransactionLog::get_reg_items`.
  unfoldable pub get_reg_items : ℕ → Parser g S → Outcome (Parser g S × a.Items)
  get_reg_items sequence_num p = elim p.recover_deleted [
    | true ↦ a.reg_items p.file_info sequence_num p.rest p.info >>= λ r.
        ok (record p { rest = r.0; info = r.1 }, r.2)
    | false ↦ ok (p, a.no_items)
  ]

  -- `init_root` and `find_free_keys_and_values`, on the parser.
  unfoldable pub init_root : Parser g S → Outcome (Parser g S)
  init_root p =
      a.read_root p.file_info p.rest p.info >>= λ r. ok (record p { rest = r.0; info = r.1 })

  unfoldable pub init_recover_deleted : Parser g S → Outcome (Parser g S)
  init_recover_deleted p = get_base_block_info p >>= λ i.
      a.find_free p.file_info i.1 p.rest p.info >>= λ r. ok (record p { rest = r.0; info = r.1 })

module _ (nom : Nom) {g : Guids} {S : Type 0} (a : Analysis S) where
  -- The logs, once they are prepared.
  unfoldable pub replay_logs : List TransactionLog → Parser g S → Outcome (Parser g S)
  unfolding log_loop get_reg_items
  replay_logs logs p = do
    (p', items) ← get_reg_items a 0 p
    numbers ← get_base_block_info p'
    (p'', n) ← log_loop a numbers.0 0 logs p' items
    update_header nom n p''

  -- `apply_transaction_logs`.
  unfoldable pub apply_transaction_logs :
      Bool → List TransactionLog → Parser g S → Outcome (Parser g S)
  unfolding replay_logs prepare_transaction_logs
  apply_transaction_logs has_bad_checksum [] p = ok p
  apply_transaction_logs has_bad_checksum (log ∷ logs) p =
      prepare_transaction_logs nom has_bad_checksum (log ∷ logs) p >>= λ r. elim r.2 [
        | true ↦ replay_logs r.1 r.0
        | false ↦ ok r.0
      ]

  -- What `init` does with a supported file.
  unfoldable pub init_supported :
      Bool → Bool → List TransactionLog → Parser g S → Outcome (Parser g S)
  unfolding apply_transaction_logs init_recover_deleted init_root
  init_supported recover_deleted has_bad_checksum logs p = do
    p' ← if recover_deleted then init_recover_deleted a p else ok p
    p'' ← apply_transaction_logs has_bad_checksum logs p'
    init_root a p''

  -- `Parser::init`.
  unfoldable pub init : Bool → List TransactionLog → Parser g S → Outcome (Parser g S)
  unfolding init_supported
  init recover_deleted logs p = do
    (p', supported, bad) ← init_base_block nom p
    if supported then init_supported recover_deleted bad logs p' else ok p'
