-- ===== src/TransactionLog/Replay/Total.antt =====
-- Replays that succeed, and the run of the numbers that they apply.
use notatin.Base.{
  ℕ, zero, suc, ◌+◌, ◌^◌, ◌≤◌, ◌<◌, ◌≡◌, inl, inr, refl, ap, ◌∙◌, false, some, List, [], ◌∷◌, Bytes,
  length, arith, map, ap₂, take, drop,
}
use notatin.Outcome.{ok, ◌>>=◌}
use notatin.Log.{add, warning_transaction_log}
use notatin.BaseBlock.{Guids, BaseBlock}
use notatin.Parser.{Parser, with_buffer, log_to, get_base_block_info}
use notatin.TransactionLog.{DirtyPage, LogEntry, TransactionLog}
use notatin.TransactionLog.Replay.{Analysis, conclude, apply_entry, entry_loop, update_parser}
use notatin.TransactionLog.Replay.Selected.{
  Selected, finished, stale, stopped, applied_next, verdict_cases, patch_all, last_number,
}
use notatin.TransactionLog.Replay.Pages.{Within, patch_total, BesideAll, growth, patch_all_keeps}
use notatin.TransactionLog.Replay.Loop.{entry_loop-Selected, update_parser-Selected}

-- Every entry of a log, applied or not, has its pages in the buffer.
abbrev pub Roomy : ℕ → ℕ → List LogEntry → Type 0
Roomy hbin len [] = Unit
Roomy hbin len (e ∷ entries) = Within hbin len e.dirty_pages × Roomy hbin len entries

abbrev pub numbers_from : ℕ → ℕ → List ℕ
numbers_from n zero = []
numbers_from n (suc k) = suc n ∷ numbers_from (suc n) k

Selected-numbers :
    {secondary n : ℕ} {entries applied : List LogEntry}
    → Selected secondary n entries applied
    → 0 < n
    → n + length entries < 2 ^ 32
    → (map (λ (e : LogEntry). e.sequence_number) applied ≡ numbers_from n (length applied))
      × (last_number n applied ≡ n + length applied)
      × (length applied ≤ length entries)
Selected-numbers finished h k = (refl, omega arith, omega arith)
Selected-numbers (stale s sel) h k =
    let (numbers, last, short) = Selected-numbers sel h (omega arith) in
    (numbers, last, omega arith)
Selected-numbers (stopped s) h k = (refl, omega arith, omega arith)
Selected-numbers {secondary} {n} (applied_next {e} {applied} a sel) h k =
    let next : e.sequence_number ≡ suc n = elim a.follows [
      | inl zero_first ↦ absurd (omega arith)
      | inr follows ↦ omega arith
    ] in
    let (numbers, last, short) = Selected-numbers sel (omega arith) (omega arith) in
    (
      ap₂ (λ s t. s ∷ t) next (numbers ∙ ap (λ t. numbers_from t (length applied)) next),
      omega arith,
      omega arith,
    )

-- Once an entry with a number n above 0 is applied, and if n plus the number of the entries that are
-- left is below 2 ^ 32, a replay that succeeds applies entries with the numbers n + 1, n + 2 and so on,
-- without a gap, and ends with the number of the last of them (with n if there is none).
pub entry_loop-numbers :
    {g : Guids} {S : Type 0} (a : Analysis S) (secondary size n last : ℕ) (entries : List LogEntry)
    (p p' : Parser g S) (items items' : a.Items)
    → entry_loop a secondary size n entries p items ≡ ok (p', last, items')
    → 0 < n
    → n + length entries < 2 ^ 32
    → (applied : List LogEntry) × Selected secondary n entries applied
      × (patch_all p.file_info.hbin_offset_absolute size applied p.file_info.buffer
          ≡ ok p'.file_info.buffer)
      × (map (λ (e : LogEntry). e.sequence_number) applied ≡ numbers_from n (length applied))
      × (last ≡ n + length applied)
entry_loop-numbers a secondary size n last entries p p' items items' run h k =
    let (applied, sel, bytes, l, _) =
      entry_loop-Selected a secondary size n last entries p p' items items' run in
    let (numbers, l', _) = Selected-numbers sel h k in (applied, sel, bytes, numbers, l ∙ l')

Beside-applied :
    {secondary s : ℕ} {entries applied : List LogEntry} (hbin m n : ℕ)
    → Selected secondary s entries applied
    → BesideAll hbin m n entries
    → BesideAll hbin m n applied
Beside-applied hbin m n finished h = tt
Beside-applied hbin m n (stale s sel) h = Beside-applied hbin m n sel h.1
Beside-applied hbin m n (stopped s) h = tt
Beside-applied hbin m n (applied_next a sel) h = (h.0, Beside-applied hbin m n sel h.1)

-- A replay that succeeds changes no window of the file that no page of the log meets.
pub update_parser-window :
    {g : Guids} {S : Type 0} (a : Analysis S) (log : TransactionLog) (p p' : Parser g S) (last : ℕ)
    (items items' : a.Items) (m n : ℕ)
    → update_parser a log p items ≡ ok (p', last, items')
    → BesideAll p.file_info.hbin_offset_absolute m n log.log_entries
    → m + n ≤ length p.file_info.buffer
    → take n (drop m p'.file_info.buffer) ≡ take n (drop m p.file_info.buffer)
update_parser-window a log p p' last items items' m n run apart within =
    let (b, applied, _, sel, bytes, _, _) =
      update_parser-Selected a log p p' last items items' run in
    let (_, window) =
      patch_all_keeps p.file_info.hbin_offset_absolute b.base.hive_bins_data_size m n applied
        p.file_info.buffer p'.file_info.buffer bytes in
    window (Beside-applied p.file_info.hbin_offset_absolute m n sel apart) within

-- After a replay that succeeds the file is longer by the sum, over all the entries that were applied,
-- of what the size of the entry exceeds the size in the primary file's header by: the buffer grows
-- again for every such entry.
pub update_parser-length :
    {g : Guids} {S : Type 0} (a : Analysis S) (log : TransactionLog) (p p' : Parser g S) (last : ℕ)
    (items items' : a.Items)
    → update_parser a log p items ≡ ok (p', last, items')
    → (b : BaseBlock g) × (applied : List LogEntry) × (p.base_block ≡ some b)
      × Selected b.base.secondary_sequence_number 0 log.log_entries applied
      × (length p'.file_info.buffer
          ≡ length p.file_info.buffer + growth b.base.hive_bins_data_size applied)
update_parser-length a log p p' last items items' run =
    let (b, applied, has, sel, bytes, _, _) =
      update_parser-Selected a log p p' last items items' run in
    (
      b,
      applied,
      has,
      sel,
      (patch_all_keeps p.file_info.hbin_offset_absolute b.base.hive_bins_data_size 0 0 applied
          p.file_info.buffer p'.file_info.buffer bytes).0,
    )

Within-mono :
    (hbin len len' : ℕ) (pages : List DirtyPage)
    → len ≤ len'
    → Within hbin len pages
    → Within hbin len' pages
Within-mono hbin len len' [] h w = tt
Within-mono hbin len len' (page ∷ pages) h w = (omega arith, Within-mono hbin len len' pages h w.1)

Roomy-mono :
    (hbin len len' : ℕ) (entries : List LogEntry)
    → len ≤ len'
    → Roomy hbin len entries
    → Roomy hbin len' entries
Roomy-mono hbin len len' [] h r = tt
Roomy-mono hbin len len' (e ∷ entries) h r =
    (Within-mono hbin len len' e.dirty_pages h r.0, Roomy-mono hbin len len' entries h r.1)

module _ {g : Guids} {S : Type 0} (a : Analysis S) where
  apply_entry_total :
      (size : ℕ) (e : LogEntry) (p : Parser g S) (items : a.Items)
      → p.recover_deleted ≡ false
      → Within p.file_info.hbin_offset_absolute (length p.file_info.buffer) e.dirty_pages
      → (bytes : Bytes) × (apply_entry a size e p items ≡ ok (with_buffer p bytes, items))
        × (length p.file_info.buffer ≤ length bytes)
  unfolding apply_entry conclude
  apply_entry_total size e p items kept w =
      let (bytes, one, len) =
        patch_total p.file_info.hbin_offset_absolute size e p.file_info.buffer (
          Within-mono p.file_info.hbin_offset_absolute (length p.file_info.buffer) _ e.dirty_pages
            (omega arith) w) in
      (
        bytes,
        rw (one, ◌>>=◌)
            (rw (kept, conclude)
              (ap
                (λ t. ok (
                  record p {
                    file_info = record p.file_info { buffer = bytes };
                    recover_deleted = t;
                  },
                  items,
                ))
                kept)),
        omega arith,
      )

  entry_loop_total :
      (secondary size n : ℕ) (entries : List LogEntry) (p : Parser g S) (items : a.Items)
      → p.recover_deleted ≡ false
      → Roomy p.file_info.hbin_offset_absolute (length p.file_info.buffer) entries
      → (p' : Parser g S) × (last : ℕ) × (entry_loop a secondary size n entries p items
          ≡ ok (p', last, items))
  unfolding entry_loop
  entry_loop_total secondary size n [] p items kept r = (p, n, refl)
  entry_loop_total secondary size n (e ∷ entries) p items kept r =
      elim (verdict_cases secondary n e) [
        | inr (inr ((t, v), _)) ↦
            (log_to p (add warning_transaction_log t p.info), n, rw (v, entry_loop))
        | inr (inl ((t, v), _)) ↦
            let (p', last, run) =
              entry_loop_total secondary size n entries
                (log_to p (add warning_transaction_log t p.info)) items kept r.1 in
            (p', last, rw (v, entry_loop) run)
        | inl (v, _) ↦
            let (bytes, one, longer) = apply_entry_total size e p items kept r.0 in
            let (p', last, run) =
              entry_loop_total secondary size e.sequence_number entries (with_buffer p bytes) items
                kept
                (Roomy-mono p.file_info.hbin_offset_absolute (length p.file_info.buffer)
                  (length bytes) entries longer r.1) in
            (p', last, rw (v, one, ◌>>=◌, entry_loop) run)
      ]

  -- A parser that has a header and does not look for deleted cells replays every log whose pages lie
  -- in its buffer: it ends without an error, whatever the hashes and the numbers of the entries are.
  pub update_parser_total :
      (log : TransactionLog) (p : Parser g S) (b : BaseBlock g) (items : a.Items)
      → p.base_block ≡ some b
      → p.recover_deleted ≡ false
      → Roomy p.file_info.hbin_offset_absolute (length p.file_info.buffer) log.log_entries
      → (p' : Parser g S) × (last : ℕ) × (update_parser a log p items ≡ ok (p', last, items))
  unfolding update_parser get_base_block_info
  update_parser_total log p b items has kept r =
      let (p', last, run) =
        entry_loop_total b.base.secondary_sequence_number b.base.hive_bins_data_size 0
          log.log_entries p items kept r in
      let info : get_base_block_info p
          ≡ ok (b.base.secondary_sequence_number, b.base.hive_bins_data_size) =
        rw (has, ◌>>=◌) in
      (p', last, rw (info, ◌>>=◌) run)
