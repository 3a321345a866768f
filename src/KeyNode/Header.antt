-- ===== src/KeyNode/Header.antt =====
-- Where the fields of a key's cell stand, for a key whose name has one byte for each character.
use notatin.Base.{
  ℕ, ◌+◌, ◌-◌, ◌≤◌, ◌≡◌, refl, ap, ap₂, inl, inr, Bool-cases, true, Option, none, some, List, [],
  ◌∷◌, ◌++◌, ℤ, Bytes, IsBytes, length, length-drop, take, drop, drop-drop, word_at, signed32,
  unsigned_abs, le→leb, ltb, arith,
}
use notatin.Log.{lit, empty}
use notatin.Ascii.{string_from_bytes}
use notatin.Ascii.Latin.{from_ascii-eq}
use notatin.Nom.{Nom, starts_with, done, ◌>>=◌, ◌>>◌}
use notatin.Nom.Steps.{le_u16-drop, le_u32-drop, le_u64-drop, le_i32-drop, take_complete-drop}
use notatin.TransactionLog.{parser_eat_remaining}
use notatin.Value.Cell.{allocated}
use notatin.KeyNode.{
  CellKeyNodeDetail, CellKeyNode, cell_key_node, no_nodes, nk, from_bits_checked,
  key_node_flags_known, key_comp_name, new_iteration, hash, detail_from_bytes, parts_from_bytes,
  from_bytes,
}

abbrev pub size_at : Bytes → ℤ
size_at buf = signed32 (word_at 4 buf 0)

abbrev pub name_size_at : Bytes → ℕ
name_size_at buf = word_at 2 buf 76

abbrev pub name_at : Bytes → Bytes
name_at buf = take (name_size_at buf) (drop 80 buf)

-- The fields by their offsets; the slack is what the cell holds behind the name.
abbrev pub detail_at : Bytes → Bytes → CellKeyNodeDetail
detail_at buf slack = record {
  size = size_at buf;
  signature = nk;
  key_node_flag_bits = word_at 2 buf 6;
  last_key_written_date_and_time = word_at 8 buf 8;
  access_flag_bits = word_at 4 buf 16;
  parent_key_offset_relative = signed32 (word_at 4 buf 20);
  number_of_sub_keys = word_at 4 buf 24;
  number_of_volatile_sub_keys = word_at 4 buf 28;
  sub_keys_list_offset_relative = word_at 4 buf 32;
  volatile_sub_keys_list_offset_relative = signed32 (word_at 4 buf 36);
  number_of_key_values = word_at 4 buf 40;
  key_values_list_offset_relative = signed32 (word_at 4 buf 44);
  security_key_offset_relative = word_at 4 buf 48;
  class_name_offset_relative = signed32 (word_at 4 buf 52);
  largest_sub_key_name_size = word_at 4 buf 56;
  largest_sub_key_class_name_size = word_at 4 buf 60;
  largest_value_name_size = word_at 4 buf 64;
  largest_value_data_size = word_at 4 buf 68;
  work_var = word_at 4 buf 72;
  key_name_size = name_size_at buf;
  class_name_size = word_at 2 buf 78;
  slack = slack;
}

abbrev pub slack_at : Bytes → Bytes
slack_at buf =
    take (unsigned_abs (size_at buf) - (80 + name_size_at buf)) (drop (80 + name_size_at buf) buf)

-- The key that a cell holds.
abbrev pub key_at : (Bytes → Bytes) → ℕ → List ℕ → Option ℕ → Bytes → CellKeyNode
key_at blake3 offset path seq buf =
    cell_key_node
      (record {
        file_offset_absolute = offset;
        detail = detail_at buf (slack_at buf);
        key_name = name_at buf;
        path = path ++ 0x5c ∷ name_at buf;
        cell_state = allocated;
        sequence_num = seq;
        updated_by_sequence_num = none;
        sub_values = [];
        logs = (from_bits_checked key_node_flags_known (word_at 2 buf 6) empty).1;
        cell_sub_key_offsets_absolute = [];
        hash = some (hash blake3 (word_at 2 buf 6) (word_at 8 buf 8) (word_at 4 buf 16));
        iteration_state = new_iteration;
      })
      no_nodes no_nodes

-- A cell that is whole: it has the signature, its size lies in the input, and its name, of one byte for
-- each character, lies in the cell.
pub record WholeKey (buf : Bytes) : Type 0 where
  pub signed : starts_with nk (drop 4 buf) ≡ true
  pub holds_name : 80 + name_size_at buf ≤ unsigned_abs (size_at buf)
  pub fits : unsigned_abs (size_at buf) ≤ length buf
  pub compressed :
      key_comp_name (from_bits_checked key_node_flags_known (word_at 2 buf 6) empty).0 ≡ true
  pub bytes : IsBytes (name_at buf)

module _ (nom : Nom) (buf : Bytes) where
  detail_from_bytes-done :
      80 ≤ length buf
      → detail_from_bytes nom (size_at buf) (drop 6 buf) ≡ done (drop 80 buf) (detail_at buf [])
  unfolding detail_from_bytes
  detail_from_bytes-done long =
      rw
        (
          le_u16-drop nom buf 6 8 (omega arith) refl,
          le_u64-drop nom buf 8 16 (omega arith) refl,
          le_u32-drop nom buf 16 20 (omega arith) refl,
          le_i32-drop nom buf 20 24 (omega arith) refl,
          le_u32-drop nom buf 24 28 (omega arith) refl,
          le_u32-drop nom buf 28 32 (omega arith) refl,
          le_u32-drop nom buf 32 36 (omega arith) refl,
          le_i32-drop nom buf 36 40 (omega arith) refl,
          le_u32-drop nom buf 40 44 (omega arith) refl,
          le_i32-drop nom buf 44 48 (omega arith) refl,
          le_u32-drop nom buf 48 52 (omega arith) refl,
          le_i32-drop nom buf 52 56 (omega arith) refl,
          le_u32-drop nom buf 56 60 (omega arith) refl,
          le_u32-drop nom buf 60 64 (omega arith) refl,
          le_u32-drop nom buf 64 68 (omega arith) refl,
          le_u32-drop nom buf 68 72 (omega arith) refl,
          le_u32-drop nom buf 72 76 (omega arith) refl,
          le_u16-drop nom buf 76 78 (omega arith) refl,
          le_u16-drop nom buf 78 80 (omega arith) refl,
          detail_from_bytes,
          ◌>>=◌,
        )
        refl

  -- The bytes up to the end of the cell are taken.
  eat-done :
      (cell consumed : ℕ)
      → consumed ≤ cell
      → cell ≤ length buf
      → parser_eat_remaining nom cell (length buf - length (drop consumed buf)) (drop consumed buf)
        ≡ done (drop cell buf) (take (cell - consumed) (drop consumed buf))
  unfolding parser_eat_remaining
  eat-done cell consumed inside fits =
      let read : length buf - length (drop consumed buf) ≡ consumed =
        omega (arith, length-drop consumed buf) in
      elim (Bool-cases (ltb consumed cell)) [
        | inl more ↦
            rw (read, more)
              (take_complete-drop nom buf consumed cell fits (cell - consumed) (omega arith))
        | inr all ↦
            let same : consumed ≡ cell = ground (arith, all) in
            let zero : 0 ≡ cell - consumed = omega arith in
            rw (read, all)
              (ap₂ done (ap (λ t. drop t buf) same) (ap (λ t. take t (drop consumed buf)) zero))
      ]

  parts_from_bytes-done :
      WholeKey buf
      → parts_from_bytes nom buf
        ≡ done (drop (unsigned_abs (size_at buf)) buf) (
          detail_at buf (slack_at buf),
          name_at buf,
          (from_bits_checked key_node_flags_known (word_at 2 buf 6) empty).1,
        )
  unfolding parts_from_bytes string_from_bytes
  parts_from_bytes-done w =
      let long : 80 ≤ length buf = omega (arith, w.holds_name, w.fits) in
      let (flags, logs) = from_bits_checked key_node_flags_known (word_at 2 buf 6) empty in
      let behind : length (drop 4 buf) + 4 ≡ length buf = omega (arith, length-drop 4 buf) in
      let large = le→leb 72 (unsigned_abs (size_at buf)) (omega (arith, w.holds_name)) in
      let small =
        le→leb (unsigned_abs (size_at buf)) (length (drop 4 buf) + 4)
          (omega (arith, behind, w.fits)) in
      rw (le_i32-drop nom buf 0 4 (omega arith) refl, parts_from_bytes, ◌>>=◌)
        (rw
          (
            large,
            small,
            nom.tag_lem nk (drop 4 buf),
            w.signed,
            drop-drop 2 4 6 buf refl,
            ◌>>◌,
            ◌>>=◌,
          )
          (rw (detail_from_bytes-done long, ◌>>=◌)
            (rw
              (
                take_complete-drop nom buf 80 (80 + name_size_at buf)
                    (omega (arith, w.holds_name, w.fits)) (name_size_at buf) refl,
                w.compressed,
                from_ascii-eq (name_at buf) (lit "key_name_bytes" ∷ []) logs w.bytes,
                ◌>>=◌,
              )
              (rw
                (
                  eat-done (unsigned_abs (size_at buf)) (80 + name_size_at buf) w.holds_name w.fits,
                  ◌>>=◌,
                )
                refl))))

  -- A cell of a key that is whole, with a name of one byte for each character, is read to its end:
  -- every field is the word at its offset, the name and the path are those of the bytes behind the
  -- fields, the slack is the rest of the cell, the hash is that of its three words, and the only
  -- warning is that of unknown flags.
  pub from_bytes-done :
      (blake3 : Bytes → Bytes) (offset : ℕ) (path : List ℕ) (seq : Option ℕ)
      → WholeKey buf
      → from_bytes nom blake3 offset path seq buf
        ≡ done (drop (unsigned_abs (size_at buf)) buf) (key_at blake3 offset path seq buf)
  unfolding from_bytes
  from_bytes-done blake3 offset path seq w = rw (parts_from_bytes-done w, from_bytes, ◌>>=◌) refl
