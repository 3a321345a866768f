-- ===== src/TransactionLog/Replay/Selected.antt =====
-- Which entries of a log are applied: `entry_loop` against a relation on the entries, and the buffer
-- as the fold of the entries that it selects.
use notatin.Base.{
  ℕ, ◌+◌, ◌%◌, ◌^◌, ◌≤◌, ◌<◌, ◌≡◌, ◌≢◌, ◌⊎◌, inl, inr, refl, true, false, not, ◌&&◌, List, [], ◌∷◌,
  Bytes, ltb, ◌==◌, ltb→lt, Bool-cases, arith,
}
use notatin.Outcome.{Outcome, ok, ◌>>=◌}
use notatin.Log.{Part}
use notatin.TransactionLog.{LogEntry}
use notatin.TransactionLog.Replay.{Verdict, apply, skip, stop, verdict, patch}

-- An entry that may be applied after the entry with the number `n`, or first if `n` is 0.
pub record Applicable (secondary n : ℕ) (e : LogEntry) : Type 0 where
  pub valid : e.has_valid_hashes ≡ true
  pub recent : secondary ≤ e.sequence_number
  pub aligned : e.hive_bins_data_size % 4096 ≡ 0
  pub follows : (n ≡ 0) ⊎ (e.sequence_number ≡ (n + 1) % 2 ^ 32)

-- An entry that the primary file has already.
pub record Stale (secondary : ℕ) (e : LogEntry) : Type 0 where
  pub valid : e.has_valid_hashes ≡ true
  pub old : e.sequence_number < secondary

-- An entry that ends the replay.
abbrev pub Stops : ℕ → ℕ → LogEntry → Type 0
Stops secondary n e =
    (e.has_valid_hashes ≡ false)
    ⊎ ((secondary ≤ e.sequence_number)
        × ((e.hive_bins_data_size % 4096 ≢ 0) ⊎ ((n ≢ 0) × (e.sequence_number ≢ (n + 1) % 2 ^ 32))))

-- The entries that are applied, of the entries that are left after the entry with the number `n`.
pub data Selected (secondary : ℕ) : ℕ → List LogEntry → List LogEntry → Type 0 where
  finished : {n : ℕ} → Selected secondary n [] []
  stale :
      {n : ℕ} {e : LogEntry} {entries applied : List LogEntry}
      → Stale secondary e
      → Selected secondary n entries applied
      → Selected secondary n (e ∷ entries) applied
  stopped :
      {n : ℕ} {e : LogEntry} {entries : List LogEntry}
      → Stops secondary n e
      → Selected secondary n (e ∷ entries) []
  applied_next :
      {n : ℕ} {e : LogEntry} {entries applied : List LogEntry}
      → Applicable secondary n e
      → Selected secondary e.sequence_number entries applied
      → Selected secondary n (e ∷ entries) (e ∷ applied)

-- The buffer after a list of entries, and the number of the last of them.
unfoldable pub patch_all : ℕ → ℕ → List LogEntry → Bytes → Outcome Bytes
patch_all hbin size [] bytes = ok bytes
patch_all hbin size (e ∷ entries) bytes =
    patch hbin size e bytes >>= λ bytes'. patch_all hbin size entries bytes'

abbrev pub last_number : ℕ → List LogEntry → ℕ
last_number n [] = n
last_number n (e ∷ entries) = last_number e.sequence_number entries

unaligned : (m : ℕ) → not (m % 4096 == 0) ≡ true → m % 4096 ≢ 0
unaligned m h = ground arith

aligned_test : (m : ℕ) → not (m % 4096 == 0) ≡ false → m % 4096 ≡ 0
aligned_test m h = ground arith

breaks :
    (n s : ℕ)
    → (not (n == 0) && not (s == (n + 1) % 2 ^ 32)) ≡ true
    → (n ≢ 0) × (s ≢ (n + 1) % 2 ^ 32)
breaks n s h = ground arith

follows_test :
    (n s : ℕ)
    → (not (n == 0) && not (s == (n + 1) % 2 ^ 32)) ≡ false
    → (n ≡ 0) ⊎ (s ≡ (n + 1) % 2 ^ 32)
follows_test n s h = ground arith

not_less : (a b : ℕ) → ltb a b ≡ false → b ≤ a
not_less a b h = ground arith

abbrev pub Applies : Verdict → ℕ → ℕ → LogEntry → Type 0
Applies v secondary n e =
    ((v ≡ apply) × Applicable secondary n e)
    ⊎ (((t : List Part) × (v ≡ skip t)) × Stale secondary e)
    ⊎ (((t : List Part) × (v ≡ stop t)) × Stops secondary n e)

-- Every verdict has the reason that it should have.
pub verdict_cases : (secondary n : ℕ) (e : LogEntry) → Applies (verdict secondary n e) secondary n e
unfolding verdict
verdict_cases secondary n e = elim (Bool-cases e.has_valid_hashes) [
  | inr bad ↦ inr (inr (rw (bad, verdict) (_, refl), inl bad))
  | inl good ↦ elim (Bool-cases (ltb e.sequence_number secondary)) [
    | inl less ↦ inr (
        inl (
          rw (good, less, verdict) (_, refl),
          record { valid = good; old = ltb→lt e.sequence_number secondary less },
        ))
    | inr enough ↦ elim (Bool-cases (not (e.hive_bins_data_size % 4096 == 0))) [
      | inl odd ↦ inr (
          inr (
            rw (good, enough, odd, verdict) (_, refl),
            inr (
              not_less e.sequence_number secondary enough,
              inl (unaligned e.hive_bins_data_size odd),
            ),
          ))
      | inr even ↦ elim (Bool-cases (not (n == 0) && not (e.sequence_number == (n + 1) % 2 ^ 32))) [
        | inl gap ↦ inr (
            inr (
              rw (good, enough, even, gap, verdict) (_, refl),
              inr (
                not_less e.sequence_number secondary enough,
                inr (breaks n e.sequence_number gap),
              ),
            ))
        | inr next ↦ inl (
          rw (good, enough, even, next, verdict) refl,
          record {
            valid = good;
            recent = not_less e.sequence_number secondary enough;
            aligned = aligned_test e.hive_bins_data_size even;
            follows = follows_test n e.sequence_number next;
          },
        )
      ]
    ]
  ]
]
