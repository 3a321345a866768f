-- ===== src/Parser/Update.antt =====
-- `update_header` as a whole: what it leaves behind is consistent, and reading it again finds it so.
use notatin.Base.{
  ℕ, ◌+◌, ◌≤◌, ◌<◌, ◌^◌, ◌≡◌, ◌==◌, ◌⊎◌, refl, ap, sym, ◌∙◌, not, true, false, some, Bytes, IsBytes,
  length, take, drop, word_at, to_le, write_at, arith, le→leb, get_range_within, ==_iff, ◌∷◌, [],
}
use notatin.Outcome.{ok, ◌>>=◌}
use notatin.Log.{add, lit, num, info}
use notatin.Nom.{Nom}
use notatin.BaseBlock.{Guids, BaseBlock}
use notatin.Parser.{Parser, with_buffer, log_to, copy_into, init_base_block, update_header}
use notatin.Parser.Header.{
  Readable, numbered, rewritten, rewritten-Readable, length-rewritten, window-rewritten,
  primary-rewritten, secondary-rewritten, checksum-rewritten, header_sum, header_checksum,
  init_base_block_result, fits1, fits2, fits3,
}

copy_into_fits :
    (buf : Bytes) (k : ℕ) (ys : Bytes)
    → k + length ys ≤ length buf
    → copy_into buf k ys ≡ ok (write_at buf k ys)
unfolding copy_into
copy_into_fits buf k ys h = rw (le→leb (k + length ys) (length buf) h)

-- What the parser says of a header that is in order.
pub record Consistent {g : Guids} {S : Type 0} (seq : ℕ) (p : Parser g S) : Type 0 where
  pub block : BaseBlock g
  pub parsed : p.base_block ≡ some block
  pub primary : block.base.primary_sequence_number ≡ seq
  pub secondary : block.base.secondary_sequence_number ≡ seq
  pub bins : p.file_info.hbin_offset_absolute ≡ 4096

==_refl : (a b : ℕ) → a ≡ b → (a == b) ≡ true
==_refl a b e = (==_iff a b).1 e

module _ (nom : Nom) {g : Guids} {S : Type 0} (seq : ℕ) (small : seq < 2 ^ 32) where
  -- The rewritten header, read by any parser.
  reread :
      (p : Parser g S) (buf : Bytes)
      → IsBytes buf
      → Readable buf
      → (p' : Parser g S) × (init_base_block nom (with_buffer p (rewritten seq buf))
          ≡ ok (p', true, false))
        × Consistent seq p'
        × (p'.file_info.buffer ≡ rewritten seq buf)
        × (p'.rest ≡ p.rest)
  reread p buf bytes r =
      let (b, logs, same, _, e) =
        init_base_block_result nom (with_buffer p (rewritten seq buf))
          (rewritten-Readable seq buf r) in
      let q : Parser g S = record {
        file_info = record { hbin_offset_absolute = 4096; buffer = rewritten seq buf };
        info = logs;
        rest = p.rest;
        base_block = some b;
        recover_deleted = p.recover_deleted;
      } in
      (
        q,
        e
            ∙ ap (λ t. ok (q, true, not t))
                (==_refl (header_sum (rewritten seq buf)) (word_at 4 (rewritten seq buf) 508)
                  (sym (checksum-rewritten seq buf r small bytes))),
        record {
          block = b;
          parsed = refl;
          primary = same.primary ∙ primary-rewritten seq buf r small bytes;
          secondary = same.secondary ∙ secondary-rewritten seq buf r small bytes;
          bins = refl;
        },
        refl,
        refl,
      )

  -- The run itself: the buffer is the rewritten one.
  pub update_header-rewritten :
      (p : Parser g S)
      → IsBytes p.file_info.buffer
      → Readable p.file_info.buffer
      → (p' : Parser g S) × (update_header nom seq p ≡ ok p')
        × Consistent seq p'
        × (p'.file_info.buffer ≡ rewritten seq p.file_info.buffer)
        × (p'' : Parser g S) × (init_base_block nom p' ≡ ok (p'', true, false))
  unfolding update_header
  update_header-rewritten p bytes r =
      let buf = p.file_info.buffer in
      let (q, eq, cons, same, rest) = reread p buf bytes r in
      let logs =
        add info
          (lit "Applied transaction log(s). Sequence numbers have been updated to "
            ∷ num seq
            ∷ lit ". New Checksum: 0x"
            ∷ num (header_sum (numbered seq buf))
            ∷ [])
          q.info in
      let (q', eq', _, _, _) = reread (log_to q logs) buf bytes r in
      (
        log_to q logs,
        rw (
          copy_into_fits buf 4 (to_le 4 seq) (fits1 seq buf r),
          copy_into_fits (write_at buf 4 (to_le 4 seq)) 8 (to_le 4 seq) (fits2 seq buf r),
          get_range_within (numbered seq buf) 0 512 (omega (arith, fits3 seq buf r)),
          header_checksum (numbered seq buf) (omega (arith, fits3 seq buf r)),
          copy_into_fits (numbered seq buf) 508 (to_le 4 (header_sum (numbered seq buf)))
              (fits3 seq buf r),
          eq,
          ◌>>=◌,
        ),
        record {
          block = cons.block;
          parsed = cons.parsed;
          primary = cons.primary;
          secondary = cons.secondary;
          bins = cons.bins;
        },
        same,
        q',
        ap (λ t. init_base_block nom (with_buffer (log_to q logs) t)) same ∙ eq',
      )

  -- After recovery to the sequence number `seq`, a file whose header can be read has the buffer with
  -- the two sequence numbers and the checksum rewritten and nothing else: its length and every window
  -- beside those three words are as before. The parser holds the header with both numbers `seq`, and
  -- reading the rewritten file again reports a supported file with a valid checksum.
  pub update_header-Consistent :
      (p : Parser g S) (n m : ℕ)
      → IsBytes p.file_info.buffer
      → Readable p.file_info.buffer
      → (m + n ≤ 4) ⊎ ((12 ≤ m) × (m + n ≤ 508)) ⊎ (512 ≤ m)
      → (p' : Parser g S) × (update_header nom seq p ≡ ok p')
        × Consistent seq p'
        × (length p'.file_info.buffer ≡ length p.file_info.buffer)
        × (take n (drop m p'.file_info.buffer) ≡ take n (drop m p.file_info.buffer))
        × (p'' : Parser g S) × (init_base_block nom p' ≡ ok (p'', true, false))
  update_header-Consistent p n m bytes r apart =
      let (p', run, cons, same, again, read) = update_header-rewritten p bytes r in
      (
        p',
        run,
        cons,
        ap length same ∙ length-rewritten seq p.file_info.buffer r,
        ap (λ t. take n (drop m t)) same ∙ window-rewritten seq p.file_info.buffer r n m apart,
        again,
        read,
      )
