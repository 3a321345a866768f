-- ===== src/BaseBlock/Header.antt =====
-- What `BaseBlockBase::from_bytes` and `BaseBlock::from_bytes` read where.
use notatin.Base.{
  ◌≤◌, ◌≡◌, refl, true, Bytes, length, take, drop, word_at, signed32, arith, length-take, [], ◌∷◌,
  length-drop, inl,
}
use notatin.Outcome.{ok, ◌>>=◌ as bind}
use notatin.Log.{Logs, empty, lit}
use notatin.Nom.{Nom, done, starts_with, ◌>>=◌, ◌>>◌}
use notatin.Nom.Steps.{le_u32-drop, le_u64-drop, le_i32-drop, take_streaming-drop}
use notatin.Utf16.{from_utf16_le_string}
use notatin.Utf16.Total.{from_utf16_le_string_total}
use notatin.BaseBlock.{
  RawBase, BaseBlockBase, regf, read_raw, interpret, base_from_bytes, file_type_from_value,
  file_format_from_value, assemble, Guids, get_guid_from_buffer, FileBaseBlockReserved,
  interpret_reserved, reserved_flags_from_value, date_time_nanos, BaseBlockExtended, ext_from_bytes,
  reserved_from_bytes, BaseBlock, base_block_from_bytes,
}

-- The fields by their offsets.
abbrev pub raw_at : Bytes → RawBase
raw_at buf = record {
  primary_sequence_number = word_at 4 buf 4;
  secondary_sequence_number = word_at 4 buf 8;
  last_modification_date_and_time = word_at 8 buf 12;
  major_version = word_at 4 buf 20;
  minor_version = word_at 4 buf 24;
  file_type_bytes = word_at 4 buf 28;
  format_bytes = word_at 4 buf 32;
  root_cell_offset_relative = signed32 (word_at 4 buf 36);
  hive_bins_data_size = word_at 4 buf 40;
  clustering_factor = word_at 4 buf 44;
  filename_bytes = take 64 (drop 48 buf);
  unk2 = take 396 (drop 112 buf);
  checksum = word_at 4 buf 508;
}

module _ (nom : Nom) (buf : Bytes) (long : 512 ≤ length buf)
    (signed : starts_with regf buf ≡ true) where
  read_raw-eq : read_raw nom buf ≡ done (drop 512 buf) (raw_at buf)
  unfolding read_raw
  read_raw-eq =
      rw (nom.tag_lem regf buf, signed, read_raw, ◌>>◌, ◌>>=◌)
        (rw
          (
            le_u32-drop nom buf 4 8 (omega arith) refl,
            le_u32-drop nom buf 8 12 (omega arith) refl,
            le_u64-drop nom buf 12 20 (omega arith) refl,
            le_u32-drop nom buf 20 24 (omega arith) refl,
            le_u32-drop nom buf 24 28 (omega arith) refl,
            le_u32-drop nom buf 28 32 (omega arith) refl,
            le_u32-drop nom buf 32 36 (omega arith) refl,
            le_i32-drop nom buf 36 40 (omega arith) refl,
            le_u32-drop nom buf 40 44 (omega arith) refl,
            le_u32-drop nom buf 44 48 (omega arith) refl,
            take_streaming-drop nom buf 48 112 (omega arith) 64 refl,
            take_streaming-drop nom buf 112 508 (omega arith) 396 refl,
            le_u32-drop nom buf 508 512 (omega arith) refl,
            ◌>>=◌,
          )
          refl)

-- What each field of the first 512 bytes is, by its offset. The logs pass through the readers of the
-- file type, the format and the file name, in this order.
pub record HeaderAt (buf : Bytes) (b : BaseBlockBase) : Type 0 where
  pub primary : b.primary_sequence_number ≡ word_at 4 buf 4
  pub secondary : b.secondary_sequence_number ≡ word_at 4 buf 8
  pub modified : b.last_modification_date_and_time ≡ date_time_nanos (word_at 8 buf 12)
  pub major : b.major_version ≡ word_at 4 buf 20
  pub minor : b.minor_version ≡ word_at 4 buf 24
  pub file_type : b.file_type ≡ (file_type_from_value (word_at 4 buf 28) empty).0
  pub format :
      b.format
      ≡ (file_format_from_value
          (word_at 4 buf 32)
          (file_type_from_value (word_at 4 buf 28) empty).1).0
  pub root : b.root_cell_offset_relative ≡ signed32 (word_at 4 buf 36)
  pub size : b.hive_bins_data_size ≡ word_at 4 buf 40
  pub clustering : b.clustering_factor ≡ word_at 4 buf 44
  pub named :
      from_utf16_le_string
        (take 64 (drop 48 buf))
        64
        (lit "Filename" ∷ [])
        (file_format_from_value
          (word_at 4 buf 32)
          (file_type_from_value (word_at 4 buf 28) empty).1).1
      ≡ ok (b.filename, b.logs)
  pub unknown : b.unk2 ≡ take 396 (drop 112 buf)
  pub checksum : b.checksum ≡ word_at 4 buf 508

-- What each field of the 3584 bytes behind them is.
pub record ExtensionAt (g : Guids) (buf : Bytes) (x : BaseBlockExtended g) : Type 0 where
  pub rm_id : g.from_buffer (take 16 (drop 512 buf)) ≡ inl x.reserved.rm_id
  pub log_id : g.from_buffer (take 16 (drop 528 buf)) ≡ inl x.reserved.log_id
  pub flags : x.reserved.flags ≡ (reserved_flags_from_value (word_at 4 buf 544) empty).0
  pub tm_id : g.from_buffer (take 16 (drop 548 buf)) ≡ inl x.reserved.tm_id
  pub signature : x.reserved.signature ≡ word_at 4 buf 564
  pub reorganized : x.reserved.last_reorganized_timestamp ≡ date_time_nanos (word_at 8 buf 568)
  pub remaining : x.reserved.remaining ≡ take 3512 (drop 576 buf)
  pub logs : x.reserved.logs ≡ (reserved_flags_from_value (word_at 4 buf 544) empty).1
  pub boot_type : x.boot_type ≡ word_at 4 buf 4088
  pub boot_recover : x.boot_recover ≡ word_at 4 buf 4092

interpret_total :
    (buf : Bytes)
    → 512 ≤ length buf
    → (b : BaseBlockBase) × (interpret (raw_at buf) ≡ ok b) × HeaderAt buf b
unfolding interpret
interpret_total buf long =
    let r = raw_at buf in
    let (t, l1) = file_type_from_value r.file_type_bytes empty in
    let (f, l2) = file_format_from_value r.format_bytes l1 in
    let (named, e) =
      from_utf16_le_string_total r.filename_bytes 64 (lit "Filename" ∷ []) l2
        (omega (arith, length-take 64 (drop 48 buf), length-drop 48 buf, long)) in
    (
      assemble r t f named.0 named.1,
      rw e,
      record {
        primary = refl;
        secondary = refl;
        modified = refl;
        major = refl;
        minor = refl;
        file_type = refl;
        format = refl;
        root = refl;
        size = refl;
        clustering = refl;
        named = e;
        unknown = refl;
        checksum = refl;
      },
    )

module _ (nom : Nom) (buf : Bytes) (long : 512 ≤ length buf)
    (signed : starts_with regf buf ≡ true) where
  -- A header of 512 bytes with the signature is read to its end, with every field from its offset.
  pub base_from_bytes-done :
      (b : BaseBlockBase) × (base_from_bytes nom buf ≡ done (drop 512 buf) b) × HeaderAt buf b
  unfolding base_from_bytes
  base_from_bytes-done =
      let (b, e, same) = interpret_total buf long in
      (b, rw (read_raw-eq nom buf long signed, e, ◌>>=◌), same)

module _ (g : Guids) where
  guid_total :
      (bs : Bytes) (logs : Logs)
      → length bs ≡ 16
      → (guid : g.Guid) × (g.from_buffer bs ≡ inl guid)
        × (get_guid_from_buffer g bs logs ≡ ok (guid, logs))
  unfolding get_guid_from_buffer
  guid_total bs logs h =
      let (guid, e) = g.sixteen_bytes bs h in (guid, e, rw (e, get_guid_from_buffer))

  reserved_total :
      (buf : Bytes)
      → 4096 ≤ length buf
      → (r : FileBaseBlockReserved g) × (interpret_reserved g
            (take 16 (drop 512 buf))
            (take 16 (drop 528 buf))
            (word_at 4 buf 544)
            (take 16 (drop 548 buf))
            (word_at 4 buf 564)
            (word_at 8 buf 568)
            (take 3512 (drop 576 buf))
          ≡ ok r)
        × ExtensionAt g buf (record {
          reserved = r;
          boot_type = word_at 4 buf 4088;
          boot_recover = word_at 4 buf 4092;
        })
  unfolding interpret_reserved
  reserved_total buf long =
      let (value, l) = reserved_flags_from_value (word_at 4 buf 544) empty in
      let (rm, m1, e1) =
        guid_total (take 16 (drop 512 buf)) empty
          (omega (arith, length-take 16 (drop 512 buf), length-drop 512 buf)) in
      let (log, m2, e2) =
        guid_total (take 16 (drop 528 buf)) empty
          (omega (arith, length-take 16 (drop 528 buf), length-drop 528 buf)) in
      let (tm, m3, e3) =
        guid_total (take 16 (drop 548 buf)) l
          (omega (arith, length-take 16 (drop 548 buf), length-drop 548 buf)) in
      (
        record {
          rm_id = rm;
          log_id = log;
          flags = value;
          tm_id = tm;
          signature = word_at 4 buf 564;
          last_reorganized_timestamp = date_time_nanos (word_at 8 buf 568);
          remaining = take 3512 (drop 576 buf);
          logs = l;
        },
        rw (e1, e2, e3, bind),
        record {
          rm_id = m1;
          log_id = m2;
          flags = refl;
          tm_id = m3;
          signature = refl;
          reorganized = refl;
          remaining = refl;
          logs = refl;
          boot_type = refl;
          boot_recover = refl;
        },
      )

module _ (nom : Nom) (g : Guids) (buf : Bytes) (long : 4096 ≤ length buf) where
  ext_from_bytes-done :
      (x : BaseBlockExtended g) × (ext_from_bytes nom g (drop 512 buf) ≡ done (drop 4096 buf) x)
      × ExtensionAt g buf x
  unfolding ext_from_bytes reserved_from_bytes
  ext_from_bytes-done =
      let (r, e, at) = reserved_total g buf long in
      (
        record { reserved = r; boot_type = word_at 4 buf 4088; boot_recover = word_at 4 buf 4092 },
        rw (
          take_streaming-drop nom buf 512 528 (omega arith) 16 refl,
          take_streaming-drop nom buf 528 544 (omega arith) 16 refl,
          le_u32-drop nom buf 544 548 (omega arith) refl,
          take_streaming-drop nom buf 548 564 (omega arith) 16 refl,
          le_u32-drop nom buf 564 568 (omega arith) refl,
          le_u64-drop nom buf 568 576 (omega arith) refl,
          take_streaming-drop nom buf 576 4088 (omega arith) 3512 refl,
          e,
          le_u32-drop nom buf 4088 4092 (omega arith) refl,
          le_u32-drop nom buf 4092 4096 (omega arith) refl,
          reserved_from_bytes,
          ext_from_bytes,
          ◌>>=◌,
        ),
        at,
      )

  -- Of a buffer of 4096 bytes or more with the signature a header is read, and the rest begins behind
  -- the 4096 bytes. Every field is the word or the bytes at its offset, or what its reader makes of
  -- them: the date, the file type, the format, the name, the identifiers and the flags. The logs of
  -- both parts are those that these readers leave.
  pub base_block_from_bytes-done :
      starts_with regf buf ≡ true
      → (b : BaseBlock g) × (base_block_from_bytes nom g buf ≡ done (drop 4096 buf) b)
        × HeaderAt buf b.base
        × ExtensionAt g buf b.ext
  unfolding base_block_from_bytes
  base_block_from_bytes-done signed =
      let (base, e, same) = base_from_bytes-done nom buf (omega arith) signed in
      let (ext, e', at) = ext_from_bytes-done in
      (record { base = base; ext = ext }, rw (e, e', ◌>>=◌), same, at)
