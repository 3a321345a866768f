-- ===== src/BaseBlock.antt =====
-- src/base_block.rs: the header of a primary file (4096 bytes) and of a log file (512 bytes), and its
-- checksum. A `DateTime` is its number of nanoseconds since the Unix epoch, an `i64`.
pub mod Checksum
pub mod Header
pub mod Sample
pub mod Tests
use notatin.Base.{
  ℕ, zero, suc, ◌+◌, ◌-◌, ◌*◌, ◌%◌, ◌^◌, bit_xor, Bool, true, false, none, some, ◌⊎◌, inl, inr,
  List, [], ◌∷◌, ◌≡◌, Bytes, length, replicate, take, drop, get_range, from_le, signed32, ℤ, pos,
  negsuc, ltb, leb, ◌==◌, if◌then◌else◌,
}
use notatin.Outcome.{Outcome, ok, err, panic, no_fuel, buffer, ◌>>=◌ as bind}
use notatin.Log.{Logs, Part, lit, empty, add, warning_conversion}
use notatin.Nom.{Nom, Parser, IResult, done, failed, crash, ◌>>=◌, ◌>>◌, pure}
use notatin.Utf16.{from_utf16_le_string}

-- `Guid` of the crate `winstructs`. `from_buffer` gives the text of its error for an `Err`, which it
-- returns for a buffer that ends early.
pub record Guids : Type 1 where
  pub Guid : Type 0
  pub from_buffer : Bytes → Guid ⊎ List Part
  pub sixteen_bytes : (bs : Bytes) → length bs ≡ 16 → (guid : Guid) × (from_buffer bs ≡ inl guid)

pub data FileType : Type 0 where
  primary transaction_log transaction_log_new_format unknown : FileType

pub data FileFormat : Type 0 where
  direct_memory_load unknown_format : FileFormat

-- `impl_enum_from_value!` at each enumeration.
unfoldable pub file_type_from_value : ℕ → Logs → FileType × Logs
file_type_from_value value logs =
    if value == 0
    then (primary, logs)
    else if value == 1
    then (transaction_log, logs)
    else if value == 6
    then (transaction_log_new_format, logs)
    else if value == 0x0fffffff
    then (unknown, logs)
    else (unknown, add warning_conversion (lit "Unrecognized FileType value" ∷ []) logs)

unfoldable pub file_format_from_value : ℕ → Logs → FileFormat × Logs
file_format_from_value value logs =
    if value == 1
    then (direct_memory_load, logs)
    else if value == 0x0fffffff
    then (unknown_format, logs)
    else (unknown_format, add warning_conversion (lit "Unrecognized FileFormat value" ∷ []) logs)

-- `get_date_time_from_filetime` of src/util.rs: the difference of the two epochs is taken in `i128`, and
-- its low 64 bits are read as an `i64`.
unfoldable pub date_time_nanos : ℕ → ℤ
date_time_nanos filetime =
    let w = (filetime * 100 + 2 ^ 64 - 11644473600 * 1000000000) % 2 ^ 64 in
    if ltb w (2 ^ 63) then ℤ.pos w else ℤ.negsuc (2 ^ 64 - w - 1)

pub record BaseBlockBase : Type 0 where
  pub primary_sequence_number : ℕ
  pub secondary_sequence_number : ℕ
  pub last_modification_date_and_time : ℤ
  pub major_version : ℕ
  pub minor_version : ℕ
  pub file_type : FileType
  pub format : FileFormat
  pub root_cell_offset_relative : ℤ
  pub hive_bins_data_size : ℕ
  pub clustering_factor : ℕ
  pub filename : List ℕ
  pub unk2 : Bytes
  pub checksum : ℕ
  pub logs : Logs

abbrev pub checksum_offset : ℕ
checksum_offset = 508

abbrev pub base_block_len : ℕ
base_block_len = 512

-- A reader that is not a parser, run inside one. Those of src/util.rs end with a value or a panic.
abbrev pub lift : {A : Type 0} → Outcome A → Parser A
lift (ok a) input = done input a
lift (err e) input = crash
lift panic input = crash
lift no_fuel input = crash

abbrev pub regf : Bytes
regf = 0x72 ∷ 0x65 ∷ 0x67 ∷ 0x66 ∷ []

-- The fields in the order in which they are read, before they are interpreted.
pub record RawBase : Type 0 where
  pub primary_sequence_number : ℕ
  pub secondary_sequence_number : ℕ
  pub last_modification_date_and_time : ℕ
  pub major_version : ℕ
  pub minor_version : ℕ
  pub file_type_bytes : ℕ
  pub format_bytes : ℕ
  pub root_cell_offset_relative : ℤ
  pub hive_bins_data_size : ℕ
  pub clustering_factor : ℕ
  pub filename_bytes : Bytes
  pub unk2 : Bytes
  pub checksum : ℕ

-- The constructor call at the end of `BaseBlockBase::from_bytes`.
abbrev pub assemble : RawBase → FileType → FileFormat → List ℕ → Logs → BaseBlockBase
assemble r file_type format filename logs = record {
  primary_sequence_number = r.primary_sequence_number;
  secondary_sequence_number = r.secondary_sequence_number;
  last_modification_date_and_time = date_time_nanos r.last_modification_date_and_time;
  major_version = r.major_version;
  minor_version = r.minor_version;
  file_type = file_type;
  format = format;
  root_cell_offset_relative = r.root_cell_offset_relative;
  hive_bins_data_size = r.hive_bins_data_size;
  clustering_factor = r.clustering_factor;
  filename = filename;
  unk2 = r.unk2;
  checksum = r.checksum;
  logs = logs;
}

-- The fields that are interpreted; the logs pass through their readers in the order of the fields.
unfoldable pub interpret : RawBase → Outcome BaseBlockBase
interpret r =
    let (file_type, l1) = file_type_from_value r.file_type_bytes empty in
    let (format, l2) = file_format_from_value r.format_bytes l1 in
    bind (from_utf16_le_string r.filename_bytes 64 (lit "Filename" ∷ []) l2)
      λ named. ok (assemble r file_type format named.0 named.1)

module _ (nom : Nom) where
  unfoldable pub read_raw : Parser RawBase
  read_raw = do
    nom.tag regf
    primary_sequence_number ← nom.le_u32
    secondary_sequence_number ← nom.le_u32
    last_modification_date_and_time ← nom.le_u64
    major_version ← nom.le_u32
    minor_version ← nom.le_u32
    file_type_bytes ← nom.le_u32
    format_bytes ← nom.le_u32
    root_cell_offset_relative ← nom.le_i32
    hive_bins_data_size ← nom.le_u32
    clustering_factor ← nom.le_u32
    filename_bytes ← nom.take_streaming 64
    unk2 ← nom.take_streaming 396
    checksum ← nom.le_u32
    pure (record {
      primary_sequence_number = primary_sequence_number;
      secondary_sequence_number = secondary_sequence_number;
      last_modification_date_and_time = last_modification_date_and_time;
      major_version = major_version;
      minor_version = minor_version;
      file_type_bytes = file_type_bytes;
      format_bytes = format_bytes;
      root_cell_offset_relative = root_cell_offset_relative;
      hive_bins_data_size = hive_bins_data_size;
      clustering_factor = clustering_factor;
      filename_bytes = filename_bytes;
      unk2 = unk2;
      checksum = checksum;
    })

  -- `BaseBlockBase::from_bytes`.
  unfoldable pub base_from_bytes : Parser BaseBlockBase
  unfolding read_raw interpret
  base_from_bytes = do r ← read_raw; lift (interpret r)

-- `FileBaseBlockReservedFlags`.
pub data ReservedFlags : Type 0 where
  no_flags ktm_locked_hive ktm2 unknown_flags : ReservedFlags

unfoldable pub reserved_flags_from_value : ℕ → Logs → ReservedFlags × Logs
reserved_flags_from_value value logs =
    if value == 0
    then (no_flags, logs)
    else if value == 1
    then (ktm_locked_hive, logs)
    else if value == 2
    then (ktm2, logs)
    else if value == 0x0fffffff
    then (unknown_flags, logs)
    else (
      unknown_flags,
      add warning_conversion (lit "Unrecognized FileBaseBlockReservedFlags value" ∷ []) logs,
    )

-- `get_guid_from_buffer` of src/util.rs: sixteen zeros stand in for a buffer that is refused.
unfoldable pub get_guid_from_buffer : (g : Guids) → Bytes → Logs → Outcome (g.Guid × Logs)
get_guid_from_buffer g bytes logs = elim (g.from_buffer bytes) [
  | inl guid ↦ ok (guid, logs)
  | inr text ↦ elim (g.from_buffer (replicate 16 0)) [
    | inl guid ↦ ok (guid, add warning_conversion text logs)
    | inr again ↦ panic
  ]
]

pub record FileBaseBlockReserved (g : Guids) : Type 0 where
  pub rm_id : g.Guid
  pub log_id : g.Guid
  pub flags : ReservedFlags
  pub tm_id : g.Guid
  pub signature : ℕ
  pub last_reorganized_timestamp : ℤ
  pub remaining : Bytes
  pub logs : Logs

pub record BaseBlockExtended (g : Guids) : Type 0 where
  pub reserved : FileBaseBlockReserved g
  pub boot_type : ℕ
  pub boot_recover : ℕ

pub record BaseBlock (g : Guids) : Type 0 where
  pub base : BaseBlockBase
  pub ext : BaseBlockExtended g

-- The constructor call of `FileBaseBlockReserved::from_bytes`.
unfoldable pub interpret_reserved :
    (g : Guids) → Bytes → Bytes → ℕ → Bytes → ℕ → ℕ → Bytes → Outcome (FileBaseBlockReserved g)
interpret_reserved g rm_id log_id flags tm_id signature timestamp remaining =
    bind (get_guid_from_buffer g rm_id empty) λ rm. bind (get_guid_from_buffer g log_id rm.1) λ log.
      let (flag_value, l) = reserved_flags_from_value flags log.1 in
      bind (get_guid_from_buffer g tm_id l) λ tm. ok (record {
        rm_id = rm.0;
        log_id = log.0;
        flags = flag_value;
        tm_id = tm.0;
        signature = signature;
        last_reorganized_timestamp = date_time_nanos timestamp;
        remaining = remaining;
        logs = tm.1;
      })

module _ (nom : Nom) (g : Guids) where
  -- `FileBaseBlockReserved::from_bytes`.
  unfoldable pub reserved_from_bytes : Parser (FileBaseBlockReserved g)
  unfolding interpret_reserved
  reserved_from_bytes = do
    rm_id ← nom.take_streaming 16
    log_id ← nom.take_streaming 16
    flags ← nom.le_u32
    tm_id ← nom.take_streaming 16
    signature ← nom.le_u32
    last_reorganized_timestamp ← nom.le_u64
    remaining ← nom.take_streaming 3512
    lift (
        interpret_reserved g rm_id log_id flags tm_id signature last_reorganized_timestamp
          remaining)

  -- `BaseBlockExtended::from_bytes`.
  unfoldable pub ext_from_bytes : Parser (BaseBlockExtended g)
  ext_from_bytes = do
    reserved ← reserved_from_bytes
    boot_type ← nom.le_u32
    boot_recover ← nom.le_u32
    pure (record { reserved = reserved; boot_type = boot_type; boot_recover = boot_recover })

  -- `BaseBlock::from_bytes`.
  unfoldable pub base_block_from_bytes : Parser (BaseBlock g)
  base_block_from_bytes = do
    base ← base_from_bytes nom
    ext ← ext_from_bytes
    pure (record { base = base; ext = ext })

-- The two values of the sum that a stored checksum never has.
abbrev pub adjust : ℕ → ℕ
adjust xsum = if xsum == 0 then 1 else if xsum == 0xffffffff then 0xfffffffe else xsum

-- The loop of `calculate_checksum`.
unfoldable pub checksum_loop : ℕ → ℕ → ℕ → Bytes → Outcome ℕ
checksum_loop zero index xsum bytes = no_fuel
checksum_loop (suc fuel) index xsum bytes = elim (leb index 0x01fb) [
  | false ↦ ok (adjust xsum)
  | true ↦ elim (get_range bytes index (index + 4)) [
    | none ↦ err (buffer "calculate_checksum")
    | some slice ↦ checksum_loop fuel (index + 4) (bit_xor xsum (from_le slice)) bytes
  ]
]

-- 127 words are summed, and one more round ends the loop.
unfoldable pub calculate_checksum : Bytes → Outcome ℕ
unfolding checksum_loop
calculate_checksum bytes = checksum_loop 128 0 0 bytes
