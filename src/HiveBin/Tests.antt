-- ===== src/HiveBin/Tests.antt =====
-- A run on a header of 32 bytes.
use notatin.Base.{◌-◌, ◌≡◌, refl, ◌∷◌, ◌++◌, Bytes, drop, word_at, length, replicate, arith}
use notatin.Nom.{done}
use notatin.Nom.Reader.{reader}
use notatin.BaseBlock.{date_time_nanos}
use notatin.Parser.{FileInfo}
use notatin.HiveBin.{hbin, hive_bin_header_from_bytes}
use notatin.HiveBin.Header.{hive_bin_header-done}

abbrev bin : Bytes
bin = hbin ++ (0 ∷ 0 ∷ 0 ∷ 0 ∷ 0 ∷ 0x10 ∷ 0 ∷ 0 ∷ replicate 20 7)

abbrev whole : FileInfo
whole = record { hbin_offset_absolute = 0; buffer = bin }

hive_bin_header-done_example :
    hive_bin_header_from_bytes reader whole bin
    ≡ done (drop 32 bin) (record {
      file_offset_absolute = length bin - length bin;
      offset_from_first_hbin = word_at 4 bin 4;
      size = word_at 4 bin 8;
      unknown1 = word_at 4 bin 12;
      unknown2 = word_at 4 bin 16;
      timestamp = date_time_nanos (word_at 8 bin 20);
      spare = word_at 4 bin 28;
    })
hive_bin_header-done_example = hive_bin_header-done reader whole bin (omega arith) refl
