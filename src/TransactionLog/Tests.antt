-- ===== src/TransactionLog/Tests.antt =====
-- Runs of the replay on a file of eight bytes, and of the reading and the sorting of logs.
use mathlib.Core.List.{Perm}
use notatin.Base.{
  ℕ, ◌+◌, ◌-◌, ◌≡◌, ◌==◌, ◌&&◌, refl, inl, true, false, some, List, [], ◌∷◌, map, Bytes, length,
  take, drop, replicate, arith,
}
use notatin.Outcome.{ok}
use notatin.Log.{empty, add, Part, lit, num, warning_transaction_log}
use notatin.BaseBlock.{BaseBlock}
use notatin.BaseBlock.Sample.{plain_guids, header, blank_file, blank_file-IsBytes, blank_file_long}
use notatin.Parser.{Parser, get_base_block_info}
use notatin.Marvin32.Padding.{padded_hash}
use notatin.TransactionLog.{LogEntry, TransactionLog, default_seed, valid_hashes, sort_logs}
use notatin.TransactionLog.Entry.{valid_hashes-eq}
use notatin.TransactionLog.Order.{OldestFirst, sort_logs-OldestFirst}
use notatin.TransactionLog.Replay.{Analysis, entry_loop, update_parser}
use notatin.TransactionLog.Replay.Selected.{Selected, patch_all, last_number}
use notatin.TransactionLog.Replay.Loop.{update_parser-Selected}
use notatin.TransactionLog.Replay.Pages.{growth}
use notatin.TransactionLog.Replay.Total.{
  numbers_from, entry_loop-numbers, update_parser-window, update_parser-length, update_parser_total,
}

-- An analysis that finds nothing.
abbrev pub quiet : Analysis (Unit {0})
quiet = record {
  Items = Unit {0};
  no_items = tt;
  reg_items = λ f n s logs. ok (tt, logs, tt);
  latest_reg_items = λ prior n f s logs items.
      ok (record { rest = tt; info = logs; items = tt; logs = empty; result = inl tt });
  find_free = λ f n s logs. ok (tt, logs);
  read_root = λ f s logs. ok (tt, logs);
}

abbrev pub entry : ℕ → Bytes → LogEntry
entry number page_bytes = record {
  file_offset_absolute = 512;
  size = 512;
  flags = 0;
  sequence_number = number;
  hive_bins_data_size = 4096;
  dirty_pages_count = 1;
  hash1 = 0;
  hash2 = 0;
  dirty_pages = record { dirty_page_ref_offset = 1; page_bytes = page_bytes } ∷ [];
  has_valid_hashes = true;
}

-- Two entries in sequence, and one that does not follow them.
abbrev three_entries : List LogEntry
three_entries = entry 5 (7 ∷ 7 ∷ []) ∷ entry 6 (9 ∷ []) ∷ entry 8 (1 ∷ []) ∷ []

abbrev pub log_of : ℕ → List LogEntry → TransactionLog
log_of number entries = record {
  base_block = (header number number 4096).base;
  base_block_bytes = [];
  log_entries = entries;
}

abbrev file : Bytes → Parser plain_guids (Unit {0})
file bytes = record {
  file_info = record { hbin_offset_absolute = 4; buffer = bytes };
  info = empty;
  rest = tt;
  base_block = some (header 9 5 4096);
  recover_deleted = false;
}

abbrev before : Parser plain_guids (Unit {0})
before = file (replicate 8 0)

abbrev after : Parser plain_guids (Unit {0})
after = record (file (0 ∷ 0 ∷ 0 ∷ 0 ∷ 0 ∷ 9 ∷ 7 ∷ 0 ∷ [])) {
  info = record { logs = some (record { code = warning_transaction_log; text = stopping } ∷ []) };
}
  where
    stopping : List Part
    stopping =
        lit "Stopping log entry processing; the sequence number ("
        ∷ num 8
        ∷ lit ") does not follow the previous log entry's sequence number ("
        ∷ num 6
        ∷ lit ")"
        ∷ []

replayed : update_parser quiet (log_of 5 three_entries) before tt ≡ ok (after, 6, tt)
unfolding update_parser get_base_block_info add
replayed = refl

update_parser-Selected_example :
    (b : BaseBlock plain_guids) × (applied : List LogEntry) × (before.base_block ≡ some b)
    × Selected b.base.secondary_sequence_number 0 three_entries applied
    × (patch_all 4 b.base.hive_bins_data_size applied (replicate 8 0) ≡ ok after.file_info.buffer)
    × (6 ≡ last_number 0 applied)
    × (after.base_block ≡ before.base_block)
update_parser-Selected_example =
    update_parser-Selected quiet (log_of 5 three_entries) before after 6 tt tt replayed

looped : entry_loop quiet 5 4096 4 three_entries before tt ≡ ok (after, 6, tt)
unfolding entry_loop add
looped = refl

entry_loop-numbers_example :
    (applied : List LogEntry) × Selected 5 4 three_entries applied
    × (patch_all 4 4096 applied (replicate 8 0) ≡ ok after.file_info.buffer)
    × (map (λ (e : LogEntry). e.sequence_number) applied ≡ numbers_from 4 (length applied))
    × (6 ≡ 4 + length applied)
entry_loop-numbers_example =
    entry_loop-numbers quiet 5 4096 4 6 three_entries before after tt tt looped (omega arith)
      (omega arith)

update_parser-window_example :
    take 4 (drop 0 after.file_info.buffer) ≡ take 4 (drop 0 before.file_info.buffer)
update_parser-window_example =
    update_parser-window quiet (log_of 5 three_entries) before after 6 tt tt 0 4 replayed
      ((inl (omega arith), tt), ((inl (omega arith), tt), ((inl (omega arith), tt), tt)))
      (omega arith)

update_parser-length_example :
    (b : BaseBlock plain_guids) × (applied : List LogEntry) × (before.base_block ≡ some b)
    × Selected b.base.secondary_sequence_number 0 three_entries applied
    × (length after.file_info.buffer ≡ 8 + growth b.base.hive_bins_data_size applied)
update_parser-length_example =
    update_parser-length quiet (log_of 5 three_entries) before after 6 tt tt replayed

update_parser_total_example :
    (p' : Parser plain_guids (Unit {0})) × (last : ℕ) × (update_parser quiet
        (log_of 5 three_entries)
        before
        tt
      ≡ ok (p', last, tt))
update_parser_total_example =
    update_parser_total quiet (log_of 5 three_entries) before (header 9 5 4096) tt refl refl
      ((omega arith, tt), ((omega arith, tt), ((omega arith, tt), tt)))

valid_hashes-eq_example :
    valid_hashes blank_file 512 1 2
    ≡ ok (
        1 == padded_hash default_seed (take (512 - 40) (drop 40 blank_file))
        && 2 == padded_hash default_seed (take 32 blank_file))
valid_hashes-eq_example =
    valid_hashes-eq blank_file blank_file-IsBytes 512 (omega arith) (omega (arith, blank_file_long))
      1 2

abbrev two_logs : List TransactionLog
two_logs = log_of 9 [] ∷ log_of 4 three_entries ∷ []

sort_logs-OldestFirst_example :
    OldestFirst (sort_logs two_logs) × Perm (sort_logs two_logs) two_logs
sort_logs-OldestFirst_example = sort_logs-OldestFirst two_logs
