-- ===== src/Parser.antt =====
-- src/parser.rs and src/file_info.rs: the parser's state, its header, and the rewriting of the header
-- after recovery. `S` stands for the fields of `State`, and for the two of `Parser`, that the header
-- does not depend on: the root key, the maps of deleted and modified cells, the hasher.
pub mod Header
pub mod Update
pub mod Tests
use notatin.Base.{
  ℕ, ◌+◌, ◌-◌, ◌≤◌, String, Bool, true, false, not, Option, none, some, List, [], ◌∷◌, ◌++◌, Bytes,
  length, take, drop, get_range, write_at, to_le, leb, ◌==◌, if◌then◌else◌,
}
use notatin.Outcome.{Outcome, ok, panic, expect, ◌>>=◌}
use notatin.Log.{Logs, Part, lit, num, add, info, warning_base_block}
use notatin.Nom.{Nom, finish}
use notatin.BaseBlock.{
  Guids, BaseBlock, BaseBlockBase, FileType, unknown, base_block_from_bytes, calculate_checksum,
  checksum_offset,
}

pub record FileInfo : Type 0 where
  pub hbin_offset_absolute : ℕ
  pub buffer : Bytes

-- `FileInfo::from_read_seek`, given what `read_to_end` reads.
abbrev pub from_read_seek : Bytes → FileInfo
from_read_seek file_buffer_primary = record {
  hbin_offset_absolute = 0;
  buffer = file_buffer_primary;
}

pub record Parser (g : Guids) (S : Type 0) : Type 0 where
  pub file_info : FileInfo
  pub info : Logs
  pub rest : S
  pub base_block : Option (BaseBlock g)
  pub recover_deleted : Bool

abbrev pub is_unknown : FileType → Bool
is_unknown FileType.unknown = true
is_unknown FileType.primary = false
is_unknown FileType.transaction_log = false
is_unknown FileType.transaction_log_new_format = false

-- `buffer[at..at + bytes.len()].copy_from_slice(bytes)`.
unfoldable pub copy_into : Bytes → ℕ → Bytes → Outcome Bytes
copy_into buffer offset bytes =
    if leb (offset + length bytes) (length buffer) then ok (write_at buffer offset bytes) else panic

abbrev pub with_buffer : {g : Guids} {S : Type 0} → Parser g S → Bytes → Parser g S
with_buffer p bytes = record p {
  file_info = record { hbin_offset_absolute = p.file_info.hbin_offset_absolute; buffer = bytes };
}

abbrev pub log_to : {g : Guids} {S : Type 0} → Parser g S → Logs → Parser g S
log_to p logs = record p { info = logs }

-- The two warnings of `check_base_block`.
unfoldable pub sequence_warning : BaseBlockBase → Logs → Logs
sequence_warning base logs =
    if base.primary_sequence_number == base.secondary_sequence_number
    then logs
    else add warning_base_block
        (lit "Hive requires recovery: primary and secondary sequence numbers do not match. "
          ∷ num base.primary_sequence_number
          ∷ lit ", "
          ∷ num base.secondary_sequence_number
          ∷ [])
        logs

unfoldable pub checksum_warning : ℕ → BaseBlockBase → Logs → Logs
checksum_warning checksum base logs =
    if checksum == base.checksum
    then logs
    else add warning_base_block (lit "Hive requires recovery: base block checksum is wrong." ∷ [])
        logs

module _ {g : Guids} {S : Type 0} where
  -- `get_base_block_info`.
  unfoldable pub get_base_block_info : Parser g S → Outcome (ℕ × ℕ)
  get_base_block_info p = do
    b ← expect p.base_block
    ok (b.base.secondary_sequence_number, b.base.hive_bins_data_size)

  -- `check_base_block` once it is known that the file type is supported.
  unfoldable pub check_supported : BaseBlockBase → Parser g S → Outcome (Parser g S × Bool × Bool)
  unfolding sequence_warning checksum_warning
  check_supported base p = do
    header ← expect (get_range p.file_info.buffer 0 0x200)
    checksum ← calculate_checksum header
    ok (
      log_to p (checksum_warning checksum base (sequence_warning base p.info)),
      true,
      not (checksum == base.checksum),
    )

  -- `check_base_block`: whether the format is supported, and whether the checksum is wrong.
  unfoldable pub check_base_block : Parser g S → Outcome (Parser g S × Bool × Bool)
  unfolding check_supported
  check_base_block p = do
    b ← expect p.base_block
    elim (is_unknown b.base.file_type) [
      | true ↦ ok (
        log_to p (add warning_base_block (lit "Unsupported registry file type." ∷ []) p.info),
        false,
        false,
      )
      | false ↦ check_supported b.base p
    ]

module _ (nom : Nom) {g : Guids} {S : Type 0} where
  -- `init_base_block`.
  unfoldable pub init_base_block : Parser g S → Outcome (Parser g S × Bool × Bool)
  init_base_block p = do
    read ← finish (base_block_from_bytes nom g p.file_info.buffer)
    check_base_block (record p {
      file_info = record {
        hbin_offset_absolute = length p.file_info.buffer - length read.0;
        buffer = p.file_info.buffer;
      };
      base_block = some read.1;
    })

  -- `update_header_after_transaction_logs`.
  unfoldable pub update_header : ℕ → Parser g S → Outcome (Parser g S)
  unfolding copy_into
  update_header new_sequence_number p = do
    b1 ← copy_into p.file_info.buffer 4 (to_le 4 new_sequence_number)
    b2 ← copy_into b1 8 (to_le 4 new_sequence_number)
    header ← expect (get_range b2 0 0x200)
    new_checksum ← calculate_checksum header
    b3 ← copy_into b2 checksum_offset (to_le 4 new_checksum)
    read ← init_base_block (with_buffer p b3)
    ok (
        log_to read.0 (
          add info
            (lit "Applied transaction log(s). Sequence numbers have been updated to "
              ∷ num new_sequence_number
              ∷ lit ". New Checksum: 0x"
              ∷ num new_checksum
              ∷ [])
            read.0.info))
