-- ===== src/HiveBin.antt =====
-- src/hive_bin_header.rs: the header of a hive bin. The offset of an input in the file is the file's
-- length less that of the input.
pub mod Header
pub mod Tests
use notatin.Base.{ℕ, ◌-◌, ℤ, [], ◌∷◌, Bytes, length}
use notatin.Nom.{Nom, Parser, ◌>>=◌, ◌>>◌, pure, remaining}
use notatin.BaseBlock.{date_time_nanos}
use notatin.Parser.{FileInfo}

pub record HiveBinHeader : Type 0 where
  pub file_offset_absolute : ℕ
  pub offset_from_first_hbin : ℕ
  pub size : ℕ
  pub unknown1 : ℕ
  pub unknown2 : ℕ
  pub timestamp : ℤ
  pub spare : ℕ

-- "hbin".
abbrev pub hbin : Bytes
hbin = 0x68 ∷ 0x62 ∷ 0x69 ∷ 0x6e ∷ []

unfoldable pub hive_bin_header_from_bytes : Nom → FileInfo → Parser HiveBinHeader
unfolding date_time_nanos
hive_bin_header_from_bytes nom file_info = do
  start ← remaining
  nom.tag hbin
  offset_from_first_hbin ← nom.le_u32
  size ← nom.le_u32
  unknown1 ← nom.le_u32
  unknown2 ← nom.le_u32
  timestamp ← nom.le_u64
  spare ← nom.le_u32
  pure (record {
    file_offset_absolute = length file_info.buffer - length start;
    offset_from_first_hbin = offset_from_first_hbin;
    size = size;
    unknown1 = unknown1;
    unknown2 = unknown2;
    timestamp = date_time_nanos timestamp;
    spare = spare;
  })
