-- ===== src/TransactionLog/Order.antt =====
-- `TransactionLog::parse` sorts the logs: oldest first, none lost and none made up.
use mathlib.Core.List.Perm
use mathlib.Core.List.{Perm}
use notatin.Base.{ℕ, ◌≤◌, ◌≡◌, inl, inr, false, List, [], ◌∷◌, leb, leb→le, Bool-cases, arith}
use notatin.TransactionLog.{TransactionLog, log_number, insert_log, sort_logs}

-- No log of the list is older than the number.
abbrev pub NoOlder : ℕ → List TransactionLog → Type 0
NoOlder n [] = Unit
NoOlder n (log ∷ logs) = (n ≤ log_number log) × NoOlder n logs

-- Oldest first.
abbrev pub OldestFirst : List TransactionLog → Type 0
OldestFirst [] = Unit
OldestFirst (log ∷ logs) = NoOlder (log_number log) logs × OldestFirst logs

NoOlder-mono : (n m : ℕ) (logs : List TransactionLog) → n ≤ m → NoOlder m logs → NoOlder n logs
NoOlder-mono n m [] h k = tt
NoOlder-mono n m (log ∷ logs) h k = (omega arith, NoOlder-mono n m logs h k.1)

not_leb : (a b : ℕ) → leb a b ≡ false → b ≤ a
not_leb a b h = ground arith

insert_log-NoOlder :
    (n : ℕ) (log : TransactionLog) (logs : List TransactionLog)
    → n ≤ log_number log
    → NoOlder n logs
    → NoOlder n (insert_log log logs)
unfolding insert_log
insert_log-NoOlder n log [] h k = (h, tt)
insert_log-NoOlder n log (l ∷ logs) h k = elim (Bool-cases (leb (log_number log) (log_number l))) [
  | inl first ↦ rw (first, insert_log) (h, k)
  | inr later ↦ rw (later, insert_log) (k.0, insert_log-NoOlder n log logs h k.1)
]

insert_log-OldestFirst :
    (log : TransactionLog) (logs : List TransactionLog)
    → OldestFirst logs
    → OldestFirst (insert_log log logs)
unfolding insert_log
insert_log-OldestFirst log [] k = (tt, tt)
insert_log-OldestFirst log (l ∷ logs) k = elim (Bool-cases (leb (log_number log) (log_number l))) [
  | inl first ↦
      let older = leb→le (log_number log) (log_number l) first in
      rw (first, insert_log)
        ((older, NoOlder-mono (log_number log) (log_number l) logs older k.0), k)
  | inr later ↦
      rw (later, insert_log)
        (
          insert_log-NoOlder (log_number l) log logs (not_leb (log_number log) (log_number l) later)
              k.0,
          insert_log-OldestFirst log logs k.1,
        )
]

insert_log-Perm :
    (log : TransactionLog) (logs : List TransactionLog) → Perm (insert_log log logs) (log ∷ logs)
unfolding insert_log
insert_log-Perm log [] = Perm.refl (log ∷ [])
insert_log-Perm log (l ∷ logs) = elim (Bool-cases (leb (log_number log) (log_number l))) [
  | inl first ↦ rw (first, insert_log) (Perm.refl (log ∷ (l ∷ logs)))
  | inr later ↦
      rw (later, insert_log)
        (Perm.trans (Perm.cons l (insert_log-Perm log logs)) (Perm.swap log l logs))
]

-- The logs are put oldest first, and they are the logs that were read.
pub sort_logs-OldestFirst :
    (logs : List TransactionLog) → OldestFirst (sort_logs logs) × Perm (sort_logs logs) logs
unfolding sort_logs
sort_logs-OldestFirst [] = (tt, Perm.refl [])
sort_logs-OldestFirst (log ∷ logs) =
    let (sorted, same) = sort_logs-OldestFirst logs in
    (
      insert_log-OldestFirst log (sort_logs logs) sorted,
      Perm.trans (insert_log-Perm log (sort_logs logs)) (Perm.cons log same),
    )
