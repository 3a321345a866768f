-- ===== src/BaseBlock/Sample.antt =====
-- A concrete reading of identifiers, and small headers, for the runs of the other modules.
use notatin.Base.{
  ℕ, zero, suc, ◌≡◌, refl, ◌≤◌, inl, inr, ◌∷◌, [], ◌++◌, Bytes, IsBytes, length, take, replicate,
  leb, le→leb, if◌then◌else◌, arith, ℤ, length-append, length-replicate, append-IsBytes, true,
}
use notatin.Log.{empty, lit}
use notatin.Nom.{starts_with}
use notatin.BaseBlock.{Guids, BaseBlock, regf, primary, direct_memory_load, no_flags}

-- An identifier is its sixteen bytes.
abbrev pub plain_guids : Guids
plain_guids = record {
  Guid = Bytes;
  from_buffer =
      λ bs. if leb 16 (length bs) then inl (take 16 bs) else inr (lit "unexpected end" ∷ []);
  sixteen_bytes = λ bs h. (take 16 bs, rw (le→leb 16 (length bs) (omega arith)));
}

-- A header with the given numbers and size.
abbrev pub header : ℕ → ℕ → ℕ → BaseBlock plain_guids
header primary_number secondary_number size = record {
  base = record {
    primary_sequence_number = primary_number;
    secondary_sequence_number = secondary_number;
    last_modification_date_and_time = ℤ.pos 0;
    major_version = 1;
    minor_version = 5;
    file_type = primary;
    format = direct_memory_load;
    root_cell_offset_relative = ℤ.pos 32;
    hive_bins_data_size = size;
    clustering_factor = 1;
    filename = [];
    unk2 = [];
    checksum = 1;
    logs = empty;
  };
  ext = record {
    reserved = record {
      rm_id = [];
      log_id = [];
      flags = no_flags;
      tm_id = [];
      signature = 0;
      last_reorganized_timestamp = ℤ.pos 0;
      remaining = [];
      logs = empty;
    };
    boot_type = 0;
    boot_recover = 0;
  };
}

-- A file of one header: the signature and zeros.
abbrev pub blank_file : Bytes
blank_file = regf ++ replicate 4092 0

replicate-IsBytes : (n : ℕ) → IsBytes (replicate n 0)
replicate-IsBytes zero = tt
replicate-IsBytes (suc n) = (omega arith, replicate-IsBytes n)

pub blank_file-IsBytes : IsBytes blank_file
blank_file-IsBytes = append-IsBytes regf (replicate 4092 0) (omega arith) (replicate-IsBytes 4092)

pub blank_file_long : 4096 ≤ length blank_file
blank_file_long =
    omega (arith, length-append regf (replicate {A = ℕ} 4092 0), length-replicate {A = ℕ} 4092 0)

pub blank_file_signed : starts_with regf blank_file ≡ true
blank_file_signed = refl
