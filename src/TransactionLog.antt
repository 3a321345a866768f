-- ===== src/TransactionLog.antt =====
-- src/transaction_log.rs: the entries of a transaction log as they are read, and the sorting of the
-- logs. The replay of a log is in TransactionLog/Replay.antt. A pointer into the file is the number of
-- bytes from it to the file's end, so the offset of an input is `total - length input`.
pub mod Entry
pub mod Order
pub mod Replay
pub mod Tests
use notatin.Base.{
  ℕ, zero, suc, ◌+◌, ◌-◌, Bool, true, false, Option, none, some, List, [], ◌∷◌, ◌++◌, Bytes, length,
  take, drop, get_range, ltb, leb, ◌==◌, if◌then◌else◌,
}
use notatin.Outcome.{Outcome, ok, err, panic, no_fuel, expect, ◌>>=◌ as bind}
use notatin.Log.{Logs, lit, empty, add, get_option, warning_parse}
use notatin.Nom.{Nom, Parser, IResult, done, failed, crash, ◌>>=◌, ◌>>◌, pure, remaining}
use notatin.BaseBlock.{BaseBlockBase, base_from_bytes, base_block_len, lift}
use notatin.Marvin32.{marvin32}

pub record DirtyPageRef : Type 0 where
  pub offset : ℕ
  pub size : ℕ

pub record DirtyPage : Type 0 where
  pub dirty_page_ref_offset : ℕ
  pub page_bytes : Bytes

pub record LogEntry : Type 0 where
  pub file_offset_absolute : ℕ
  pub size : ℕ
  pub flags : ℕ
  pub sequence_number : ℕ
  pub hive_bins_data_size : ℕ
  pub dirty_pages_count : ℕ
  pub hash1 : ℕ
  pub hash2 : ℕ
  pub dirty_pages : List DirtyPage
  pub has_valid_hashes : Bool

pub record TransactionLog : Type 0 where
  pub base_block : BaseBlockBase
  pub base_block_bytes : Bytes
  pub log_entries : List LogEntry

abbrev pub default_seed : ℕ
default_seed = 0x82EF4D887A4E55C5

-- `LogEntry::calc_hash1`. `len - OFFSET` below zero panics in a debug build; in a release build the
-- allocation of that length does.
unfoldable pub calc_hash1 : Bytes → ℕ → Outcome ℕ
calc_hash1 raw_bytes len = elim (leb 40 len) [
  | true ↦ bind (expect (get_range raw_bytes 40 len)) λ src. marvin32 default_seed src (len - 40)
  | false ↦ panic
]

-- `LogEntry::calc_hash2`.
unfoldable pub calc_hash2 : Bytes → Outcome ℕ
calc_hash2 raw_bytes = bind (expect (get_range raw_bytes 0 32)) λ src. marvin32 default_seed src 32

-- `hash1 == calc_hash1(..) && hash2 == calc_hash2(..)`.
unfoldable pub valid_hashes : Bytes → ℕ → ℕ → ℕ → Outcome Bool
unfolding calc_hash1 calc_hash2
valid_hashes start size hash1 hash2 = bind (calc_hash1 start size) λ calculated1.
    elim (hash1 == calculated1) [
      | false ↦ ok false
      | true ↦ bind (calc_hash2 start) λ calculated2. ok (hash2 == calculated2)
    ]

-- "HvLE".
abbrev pub hvle : Bytes
hvle = 0x48 ∷ 0x76 ∷ 0x4c ∷ 0x45 ∷ []

module _ (nom : Nom) where
  -- `DirtyPageRef::from_bytes`.
  unfoldable pub dirty_page_ref_from_bytes : Parser DirtyPageRef
  dirty_page_ref_from_bytes = do
    offset ← nom.le_u32
    size ← nom.le_u32
    pure (record { offset = offset; size = size })

  -- The loop that reads the page of each reference.
  unfoldable pub read_pages : List DirtyPageRef → Parser (List DirtyPage)
  read_pages [] = pure []
  read_pages (r ∷ refs) = do
    page_bytes ← nom.take_complete r.size
    pages ← read_pages refs
    pure (record { dirty_page_ref_offset = r.offset; page_bytes = page_bytes } ∷ pages)

  -- `parser_eat_remaining` of src/util.rs.
  unfoldable pub parser_eat_remaining : ℕ → ℕ → Parser Bytes
  parser_eat_remaining cell_size bytes_consumed =
      if ltb bytes_consumed cell_size
      then nom.take_complete (cell_size - bytes_consumed)
      else pure []

  -- `LogEntry::from_bytes_internal`, in a file of `total` bytes.
  unfoldable pub log_entry_from_bytes : ℕ → Parser LogEntry
  unfolding dirty_page_ref_from_bytes read_pages parser_eat_remaining valid_hashes
  log_entry_from_bytes total = do
    start ← remaining
    nom.tag hvle
    size ← nom.le_u32
    flags ← nom.le_u32
    sequence_number ← nom.le_u32
    hive_bins_data_size ← nom.le_u32
    dirty_pages_count ← nom.le_u32
    hash1 ← nom.le_u64
    hash2 ← nom.le_u64
    dirty_page_refs ← nom.count dirty_page_ref_from_bytes dirty_pages_count
    dirty_pages ← read_pages dirty_page_refs
    input ← remaining
    parser_eat_remaining size (length start - length input)
    has_valid_hashes ← lift (valid_hashes start size hash1 hash2)
    pure (record {
      file_offset_absolute = total - length start;
      size = size;
      flags = flags;
      sequence_number = sequence_number;
      hive_bins_data_size = hive_bins_data_size;
      dirty_pages_count = dirty_pages_count;
      hash1 = hash1;
      hash2 = hash2;
      dirty_pages = dirty_pages;
      has_valid_hashes = has_valid_hashes;
    })

  -- `TransactionLog::from_bytes`.
  unfoldable pub log_from_bytes : Parser TransactionLog
  unfolding log_entry_from_bytes
  log_from_bytes = do
    start ← remaining
    base_block ← base_from_bytes nom
    log_entries ← nom.many0 (log_entry_from_bytes (length start))
    pure (record {
      base_block = base_block;
      base_block_bytes = take base_block_len start;
      log_entries = log_entries;
    })

abbrev pub log_number : TransactionLog → ℕ
log_number log = log.base_block.primary_sequence_number

-- `sort_by` on the primary sequence numbers, which is stable.
unfoldable pub insert_log : TransactionLog → List TransactionLog → List TransactionLog
insert_log log [] = log ∷ []
insert_log log (l ∷ logs) =
    let rest = insert_log log logs in
    if leb (log_number log) (log_number l) then log ∷ (l ∷ logs) else l ∷ rest

unfoldable pub sort_logs : List TransactionLog → List TransactionLog
unfolding insert_log
sort_logs [] = []
sort_logs (log ∷ logs) = insert_log log (sort_logs logs)

module _ (nom : Nom) where
  -- One log file of the loop of `TransactionLog::parse`, given by its bytes. The text of the parse
  -- error, which nom writes, is left out of the warning.
  unfoldable pub parse_file :
      Bytes → List TransactionLog × Logs → Outcome (List TransactionLog × Logs)
  unfolding log_from_bytes
  parse_file [] (transaction_logs, error_logs) =
      ok (transaction_logs, add warning_parse (lit "Skipping log file; 0 bytes" ∷ []) error_logs)
  parse_file (b ∷ bs) (transaction_logs, error_logs) = elim (log_from_bytes nom (b ∷ bs)) [
    | done rest log ↦ ok (transaction_logs ++ log ∷ [], error_logs)
    | failed e ↦
        ok (transaction_logs, add warning_parse (lit "Skipping log file; " ∷ []) error_logs)
    | crash ↦ panic
  ]

  unfoldable pub parse_files :
      List Bytes → List TransactionLog × Logs → Outcome (List TransactionLog × Logs)
  unfolding parse_file
  parse_files [] s = ok s
  parse_files (file ∷ files) s = bind (parse_file file s) λ s'. parse_files files s'

  -- `TransactionLog::parse`: sorted oldest to newest.
  unfoldable pub parse : List Bytes → Outcome (List TransactionLog × Option Logs)
  unfolding parse_files sort_logs
  parse log_files = bind (parse_files log_files ([], empty)) λ s. ok (sort_logs s.0, get_option s.1)
