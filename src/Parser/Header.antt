-- ===== src/Parser/Header.antt =====
-- The rewriting of a file's header after recovery: `update_header` against `init_base_block`.
use notatin.Base.{
  ℕ, ◌+◌, ◌≤◌, ◌<◌, ◌^◌, ◌≡◌, ◌==◌, refl, ap, sym, ◌∙◌, inl, inr, not, true, false, some, [], ◌∷◌,
  Bytes, IsBytes, length, take, drop, word_at, to_le, write_at, to_le-IsBytes, arith,
  get_range_within, leb, ◌&&◌, take-drop-take, length-take, length-drop, ◌-◌, ◌⊎◌,
}
use notatin.Base.Writes.{
  length-write_at, window-write_at, write_at-IsBytes, take-write_at, word_at-write_at,
  word_at-write_at_kept,
}
use notatin.Outcome.{ok, ok_injective, ◌>>=◌}
use notatin.Log.{Logs, empty}
use notatin.Nom.{Nom, starts_with}
use notatin.BaseBlock.{Guids, BaseBlock, file_type_from_value, regf, adjust, calculate_checksum}
use notatin.BaseBlock.Header.{HeaderAt, ExtensionAt, base_block_from_bytes-done}
use notatin.BaseBlock.Checksum.{
  xor_words, calculate_checksum-eq-xor_words, calculate_checksum_range,
}
use notatin.Parser.{
  Parser, is_unknown, init_base_block, check_base_block, check_supported, sequence_warning,
  checksum_warning,
}

starts_with-take : (bs xs : Bytes) → starts_with bs (take (length bs) xs) ≡ starts_with bs xs
starts_with-take [] xs = refl
starts_with-take (b ∷ bs) [] = refl
starts_with-take (b ∷ bs) (x ∷ xs) = ap (λ t. leb b x && leb x b && t) (starts_with-take bs xs)

-- A buffer whose header can be read: long enough, signed, of a file type that is supported.
pub record Readable (buf : Bytes) : Type 0 where
  pub long : 4096 ≤ length buf
  pub signed : starts_with regf buf ≡ true
  pub supported : is_unknown (file_type_from_value (word_at 4 buf 28) empty).0 ≡ false

-- The checksum that the header should have.
abbrev pub header_sum : Bytes → ℕ
header_sum buf = adjust (xor_words (take 508 buf))

pub header_checksum :
    (buf : Bytes) → 512 ≤ length buf → calculate_checksum (take 512 buf) ≡ ok (header_sum buf)
header_checksum buf h =
    calculate_checksum-eq-xor_words (take 512 buf) (omega (arith, length-take 512 buf))
    ∙ ap (λ t. ok (adjust (xor_words t))) (take-drop-take 508 0 512 buf (omega arith))

module _ {g : Guids} {S : Type 0} (p : Parser g S) (b : BaseBlock g) where
  -- The logs of a check of the header.
  abbrev checked : Logs
  checked = checksum_warning (header_sum p.file_info.buffer) b.base (sequence_warning b.base p.info)

  check_base_block_result :
      512 ≤ length p.file_info.buffer
      → is_unknown b.base.file_type ≡ false
      → check_base_block (record p { base_block = some b })
        ≡ ok (
          record p { info = checked; base_block = some b },
          true,
          not (header_sum p.file_info.buffer == b.base.checksum),
        )
  unfolding check_base_block check_supported
  check_base_block_result h k = rw (
    k,
    get_range_within p.file_info.buffer 0 512 h,
    header_checksum p.file_info.buffer h,
    ◌>>=◌,
    check_base_block,
  )

module _ (nom : Nom) {g : Guids} {S : Type 0} (p : Parser g S)
    (r : Readable p.file_info.buffer) where
  -- A readable header is read, stored in the parser with every field of it and of its extension from
  -- its offset, and the hive bins begin at 4096. The outcome says that the file is supported, and that
  -- the checksum is bad exactly if the stored one is not the one that the header should have. The
  -- buffer and the other fields of the parser are kept; of its logs nothing is said.
  pub init_base_block_result :
      (b : BaseBlock g) × (logs : Logs) × HeaderAt p.file_info.buffer b.base
      × ExtensionAt g p.file_info.buffer b.ext
      × (init_base_block nom p
          ≡ ok (
            record {
              file_info = record { hbin_offset_absolute = 4096; buffer = p.file_info.buffer };
              info = logs;
              rest = p.rest;
              base_block = some b;
              recover_deleted = p.recover_deleted;
            },
            true,
            not (header_sum p.file_info.buffer == word_at 4 p.file_info.buffer 508),
          ))
  unfolding init_base_block
  init_base_block_result =
      let buf = p.file_info.buffer in
      let (b, e, same, ext) = base_block_from_bytes-done nom g buf r.long r.signed in
      let q : Parser g S = record p {
        file_info = record { hbin_offset_absolute = 4096; buffer = buf };
        base_block = some b;
      } in
      let n : length buf - length (drop 4096 buf) ≡ 4096 =
        omega (arith, length-drop 4096 buf, r.long) in
      (
        b,
        checked q b,
        same,
        ext,
        rw (e, ◌>>=◌)
            (ap
                (λ k. check_base_block (record q {
                  file_info = record { hbin_offset_absolute = k; buffer = buf };
                  base_block = some b;
                }))
                n
              ∙ check_base_block_result q b (omega (arith, r.long))
                  (ap is_unknown same.file_type ∙ r.supported)
              ∙ ap (λ c. ok (record q { info = checked q b }, true, not (header_sum buf == c)))
                  same.checksum),
      )

-- A word written behind the signature and beside the file type leaves a header readable.
write_at-Readable :
    (buf : Bytes) (k w : ℕ)
    → Readable buf
    → 4 ≤ k
    → k + 4 ≤ 4096
    → (32 ≤ k) ⊎ (k + 4 ≤ 28)
    → Readable (write_at buf k (to_le 4 w))
write_at-Readable buf k w r behind fits apart =
    let within : k + 4 ≤ length buf = omega (arith, r.long) in
    let new = write_at buf k (to_le 4 w) in
    record {
      long = omega (arith, r.long, length-write_at buf k (to_le 4 w) within);
      signed =
          sym (starts_with-take regf new)
          ∙ ap (starts_with regf) (take-write_at buf k (to_le 4 w) within 4 behind)
          ∙ starts_with-take regf buf
          ∙ r.signed;
      supported =
          ap (λ t. is_unknown (file_type_from_value t empty).0)
            (word_at-write_at_kept buf k w 28 within apart)
          ∙ r.supported;
    }

-- The buffer after `update_header`.
abbrev pub numbered : ℕ → Bytes → Bytes
numbered seq buf = write_at (write_at buf 4 (to_le 4 seq)) 8 (to_le 4 seq)

abbrev pub rewritten : ℕ → Bytes → Bytes
rewritten seq buf = write_at (numbered seq buf) 508 (to_le 4 (header_sum (numbered seq buf)))

module _ (seq : ℕ) (buf : Bytes) (r : Readable buf) where
  numbered-Readable : Readable (numbered seq buf)
  numbered-Readable =
      write_at-Readable (write_at buf 4 (to_le 4 seq)) 8 seq
        (write_at-Readable buf 4 seq r (omega arith) (omega arith) (inr (omega arith)))
        (omega arith) (omega arith) (inr (omega arith))

  pub rewritten-Readable : Readable (rewritten seq buf)
  rewritten-Readable =
      write_at-Readable (numbered seq buf) 508 (header_sum (numbered seq buf)) numbered-Readable
        (omega arith) (omega arith) (inl (omega arith))

  pub fits1 : 4 + 4 ≤ length buf
  fits1 = omega (arith, r.long)

  pub fits2 : 8 + 4 ≤ length (write_at buf 4 (to_le 4 seq))
  fits2 = omega (arith, r.long, length-write_at buf 4 (to_le 4 seq) fits1)

  pub fits3 : 508 + 4 ≤ length (numbered seq buf)
  fits3 = omega (arith, numbered-Readable.long)

  pub length-rewritten : length (rewritten seq buf) ≡ length buf
  length-rewritten =
      length-write_at (numbered seq buf) 508 (to_le 4 (header_sum (numbered seq buf))) fits3
      ∙ length-write_at (write_at buf 4 (to_le 4 seq)) 8 (to_le 4 seq) fits2
      ∙ length-write_at buf 4 (to_le 4 seq) fits1

  -- A window beside the three words.
  pub window-rewritten :
      (n m : ℕ)
      → (m + n ≤ 4) ⊎ ((12 ≤ m) × (m + n ≤ 508)) ⊎ (512 ≤ m)
      → take n (drop m (rewritten seq buf)) ≡ take n (drop m buf)
  window-rewritten n m apart =
      window-write_at (numbered seq buf) 508 (to_le 4 (header_sum (numbered seq buf))) fits3 n m
        (ground arith)
      ∙ window-write_at (write_at buf 4 (to_le 4 seq)) 8 (to_le 4 seq) fits2 n m (ground arith)
      ∙ window-write_at buf 4 (to_le 4 seq) fits1 n m (ground arith)

  -- The header should have the checksum that was written.
  header_sum-rewritten : header_sum (rewritten seq buf) ≡ header_sum (numbered seq buf)
  header_sum-rewritten =
      ap (λ t. adjust (xor_words t))
        (take-write_at (numbered seq buf) 508 (to_le 4 (header_sum (numbered seq buf))) fits3 508
          (omega arith))

  module _ (small : seq < 2 ^ 32) (bytes : IsBytes buf) where
    pub primary-rewritten : word_at 4 (rewritten seq buf) 4 ≡ seq
    primary-rewritten =
        word_at-write_at_kept (numbered seq buf) 508 (header_sum (numbered seq buf)) 4 fits3
          (inl (omega arith))
        ∙ word_at-write_at_kept (write_at buf 4 (to_le 4 seq)) 8 seq 4 fits2 (inl (omega arith))
        ∙ word_at-write_at buf 4 seq small fits1

    pub secondary-rewritten : word_at 4 (rewritten seq buf) 8 ≡ seq
    secondary-rewritten =
        word_at-write_at_kept (numbered seq buf) 508 (header_sum (numbered seq buf)) 8 fits3
          (inl (omega arith))
        ∙ word_at-write_at (write_at buf 4 (to_le 4 seq)) 8 seq small fits2

    sum_small : header_sum (numbered seq buf) < 2 ^ 32
    sum_small =
        let (c, e, pos, lt) =
          calculate_checksum_range (numbered seq buf)
            (write_at-IsBytes (write_at buf 4 (to_le 4 seq)) 8 (to_le 4 seq)
              (write_at-IsBytes buf 4 (to_le 4 seq) bytes (to_le-IsBytes 4 seq))
              (to_le-IsBytes 4 seq))
            (omega (arith, fits3)) in
        let same : c ≡ header_sum (numbered seq buf) =
          ok_injective
            (sym e ∙ calculate_checksum-eq-xor_words (numbered seq buf) (omega (arith, fits3))) in
        omega arith

    pub checksum-rewritten : word_at 4 (rewritten seq buf) 508 ≡ header_sum (rewritten seq buf)
    checksum-rewritten =
        word_at-write_at (numbered seq buf) 508 (header_sum (numbered seq buf)) sum_small fits3
        ∙ sym header_sum-rewritten
