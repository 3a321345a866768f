-- ===== src/TransactionLog/Replay/Loop.antt =====
-- The replay as a whole: `update_parser` applies the selected entries, in order, and no others.
use mathlib.Core.Path.{subst}
use notatin.Base.{
  ℕ, ◌≡◌, inl, inr, refl, ap, sym, ◌∙◌, Option, none, some, List, [], ◌∷◌, Bytes, Bool-cases,
}
use notatin.Outcome.{ok, ok_injective, expect, ◌>>=◌, >>=-eq-ok}
use notatin.BaseBlock.{Guids, BaseBlock}
use notatin.Log.{add, warning_transaction_log}
use notatin.Parser.{FileInfo, Parser, with_buffer, log_to, get_base_block_info}
use notatin.TransactionLog.{LogEntry, TransactionLog}
use notatin.TransactionLog.Replay.{
  Analysis, grow, patch, analyse, conclude, apply_entry, entry_loop, update_parser,
}
use notatin.TransactionLog.Replay.Selected.{
  Selected, finished, stale, stopped, applied_next, patch_all, last_number, verdict_cases,
}

module _ {g : Guids} {S : Type 0} (a : Analysis S) where
  -- The fields that the replay leaves alone.
  pub record SameFrame (p p' : Parser g S) : Type 0 where
    pub bins : p'.file_info.hbin_offset_absolute ≡ p.file_info.hbin_offset_absolute
    pub block : p'.base_block ≡ p.base_block
    pub recover : p'.recover_deleted ≡ p.recover_deleted

  same_frame : (p : Parser g S) → SameFrame p p
  same_frame p = record { bins = refl; block = refl; recover = refl }

  after : {p p' p'' : Parser g S} → SameFrame p p' → SameFrame p' p'' → SameFrame p p''
  after f f' = record {
    bins = f'.bins ∙ f.bins;
    block = f'.block ∙ f.block;
    recover = f'.recover ∙ f.recover;
  }

  analyse_keeps :
      (n : ℕ) (prior : FileInfo) (p p' : Parser g S) (items items' : a.Items)
      → analyse a n prior p items ≡ ok (p', items')
      → SameFrame p p' × (p'.file_info.buffer ≡ p.file_info.buffer)
  unfolding analyse
  analyse_keeps n prior p p' items items' e =
      let (r, _, q) = >>=-eq-ok (a.latest_reg_items prior n p.file_info p.rest p.info items) _ e in
      let same = ap (λ t. t.0) (ok_injective q) in
      (
        record {
          bins = ap (λ t. t.file_info.hbin_offset_absolute) (sym same);
          block = ap (λ t. t.base_block) (sym same);
          recover = ap (λ t. t.recover_deleted) (sym same);
        },
        ap (λ t. t.file_info.buffer) (sym same),
      )

  conclude_keeps :
      (size : ℕ) (e : LogEntry) (p p' : Parser g S) (items items' : a.Items) (bytes : Bytes)
      → conclude a size e p items bytes ≡ ok (p', items')
      → SameFrame p p' × (p'.file_info.buffer ≡ bytes)
  unfolding conclude
  conclude_keeps size e p p' items items' bytes h = elim (Bool-cases p.recover_deleted) [
    | inl deleted ↦
        let (f, same) =
          analyse_keeps e.sequence_number
            (record p.file_info { buffer = grow size e p.file_info.buffer }) (with_buffer p bytes)
            p' items items' (rw (deleted, conclude) at h) in
        (record { bins = f.bins; block = f.block; recover = f.recover }, same)
    | inr kept ↦
        let same = ap (λ t. t.0) (ok_injective (rw (kept, conclude) at h)) in
        (
          record {
            bins = ap (λ t. t.file_info.hbin_offset_absolute) (sym same);
            block = ap (λ t. t.base_block) (sym same);
            recover = ap (λ t. t.recover_deleted) (sym same);
          },
          ap (λ t. t.file_info.buffer) (sym same),
        )
  ]

  apply_entry_keeps :
      (size : ℕ) (e : LogEntry) (p p' : Parser g S) (items items' : a.Items)
      → apply_entry a size e p items ≡ ok (p', items')
      → SameFrame p p'
        × (patch p.file_info.hbin_offset_absolute size e p.file_info.buffer
            ≡ ok p'.file_info.buffer)
  unfolding apply_entry
  apply_entry_keeps size e p p' items items' h =
      let (bytes, patched, q) =
        >>=-eq-ok (patch p.file_info.hbin_offset_absolute size e p.file_info.buffer) _ h in
      let (f, same) = conclude_keeps size e p p' items items' bytes q in
      (f, patched ∙ ap ok (sym same))

  -- A run of the loop that ends well, from any entry on.
  pub entry_loop-Selected :
      (secondary size n last : ℕ) (entries : List LogEntry) (p p' : Parser g S)
      (items items' : a.Items)
      → entry_loop a secondary size n entries p items ≡ ok (p', last, items')
      → (applied : List LogEntry) × Selected secondary n entries applied
        × (patch_all p.file_info.hbin_offset_absolute size applied p.file_info.buffer
            ≡ ok p'.file_info.buffer)
        × (last ≡ last_number n applied)
        × SameFrame p p'
  unfolding entry_loop patch_all
  entry_loop-Selected secondary size n last [] p p' items items' h =
      let same = ok_injective h in
      (
        [],
        finished,
        ap (λ t. ok t.0.file_info.buffer) same,
        ap (λ t. t.1) (sym same),
        record {
          bins = ap (λ t. t.0.file_info.hbin_offset_absolute) (sym same);
          block = ap (λ t. t.0.base_block) (sym same);
          recover = ap (λ t. t.0.recover_deleted) (sym same);
        },
      )
  entry_loop-Selected secondary size n last (e ∷ entries) p p' items items' h =
      elim (verdict_cases secondary n e) [
        | inr (inr ((t, v), stops)) ↦
            let same = ok_injective (rw (v, entry_loop) at h) in
            (
              [],
              stopped stops,
              ap (λ t. ok t.0.file_info.buffer) same,
              ap (λ t. t.1) (sym same),
              record {
                bins = ap (λ t. t.0.file_info.hbin_offset_absolute) (sym same);
                block = ap (λ t. t.0.base_block) (sym same);
                recover = ap (λ t. t.0.recover_deleted) (sym same);
              },
            )
        | inr (inl ((t, v), old)) ↦
            let (applied, sel, bytes, l, f) =
              entry_loop-Selected secondary size n last entries
                (log_to p (add warning_transaction_log t p.info)) p' items items'
                (rw (v, entry_loop) at h) in
            (
              applied,
              stale old sel,
              bytes,
              l,
              record { bins = f.bins; block = f.block; recover = f.recover },
            )
        | inl (v, good) ↦
            let (r, once, rest) =
              >>=-eq-ok (apply_entry a size e p items) _ (rw (v, entry_loop) at h) in
            let (f, first) = apply_entry_keeps size e p r.0 items r.1 once in
            let (applied, sel, bytes, l, f') =
              entry_loop-Selected secondary size e.sequence_number last entries r.0 p' r.1 items'
                rest in
            (
              e ∷ applied,
              applied_next good sel,
              rw (first, patch_all, ◌>>=◌)
                  (ap (λ b. patch_all b size applied r.0.file_info.buffer) (sym f.bins) ∙ bytes),
              l,
              after f f',
            )
      ]

-- A replay that succeeds leaves the file as the selected entries make it, in their order, from the
-- numbers of the header: the buffer is the fold of those entries over the old one, the number that is
-- returned is that of the last of them (0 if there is none), and the header that the parser holds is
-- the old one.
pub update_parser-Selected :
    {g : Guids} {S : Type 0} (a : Analysis S) (log : TransactionLog) (p p' : Parser g S) (last : ℕ)
    (items items' : a.Items)
    → update_parser a log p items ≡ ok (p', last, items')
    → (b : BaseBlock g) × (applied : List LogEntry) × (p.base_block ≡ some b)
      × Selected b.base.secondary_sequence_number 0 log.log_entries applied
      × (patch_all p.file_info.hbin_offset_absolute b.base.hive_bins_data_size applied
            p.file_info.buffer
          ≡ ok p'.file_info.buffer)
      × (last ≡ last_number 0 applied)
      × (p'.base_block ≡ p.base_block)
unfolding update_parser get_base_block_info
update_parser-Selected a log p p' last items items' h =
    let (i, info, run) = >>=-eq-ok (get_base_block_info p) _ h in
    let (b, has, numbers) = >>=-eq-ok (expect p.base_block) _ info in
    let (applied, sel, bytes, l, f) =
      entry_loop-Selected a i.0 i.1 0 last log.log_entries p p' items items' run in
    let same = ok_injective numbers in
    (
      b,
      applied,
      expect_some p.base_block b has,
      subst (λ n. Selected n 0 log.log_entries applied) (ap (λ t. t.0) (sym same)) sel,
      ap (λ n. patch_all p.file_info.hbin_offset_absolute n applied p.file_info.buffer)
            (ap (λ t. t.1) same)
          ∙ bytes,
      l,
      f.block,
    )
  where
    expect_some : {A : Type 0} (o : Option A) (x : A) → expect o ≡ ok x → o ≡ some x
    expect_some none x e = cc
    expect_some (some y) x e = ap some (ok_injective e)
