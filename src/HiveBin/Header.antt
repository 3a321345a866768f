-- ===== src/HiveBin/Header.antt =====
-- Where the fields of a bin's header stand.
use notatin.Base.{◌-◌, ◌≤◌, ◌≡◌, refl, true, Bytes, length, drop, word_at, arith}
use notatin.Nom.{Nom, starts_with, done, ◌>>=◌, ◌>>◌}
use notatin.Nom.Steps.{le_u32-drop, le_u64-drop}
use notatin.BaseBlock.{date_time_nanos}
use notatin.Parser.{FileInfo}
use notatin.HiveBin.{hbin, hive_bin_header_from_bytes}

-- Of an input of 32 bytes with the signature, every field is the word at its offset, and the input that
-- is left begins behind the 32 bytes.
pub hive_bin_header-done :
    (nom : Nom) (f : FileInfo) (buf : Bytes)
    → 32 ≤ length buf
    → starts_with hbin buf ≡ true
    → hive_bin_header_from_bytes nom f buf
      ≡ done (drop 32 buf) (record {
        file_offset_absolute = length f.buffer - length buf;
        offset_from_first_hbin = word_at 4 buf 4;
        size = word_at 4 buf 8;
        unknown1 = word_at 4 buf 12;
        unknown2 = word_at 4 buf 16;
        timestamp = date_time_nanos (word_at 8 buf 20);
        spare = word_at 4 buf 28;
      })
unfolding hive_bin_header_from_bytes
hive_bin_header-done nom f buf long signed =
    rw (nom.tag_lem hbin buf, signed, hive_bin_header_from_bytes, ◌>>◌, ◌>>=◌)
      (rw
        (
          le_u32-drop nom buf 4 8 (omega arith) refl,
          le_u32-drop nom buf 8 12 (omega arith) refl,
          le_u32-drop nom buf 12 16 (omega arith) refl,
          le_u32-drop nom buf 16 20 (omega arith) refl,
          le_u64-drop nom buf 20 28 (omega arith) refl,
          le_u32-drop nom buf 28 32 (omega arith) refl,
          ◌>>=◌,
        )
        refl)
