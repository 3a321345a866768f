-- ===== src/Parser/Tests.antt =====
-- Runs of the header's check and of its rewriting.
use notatin.Base.{
  ◌≡◌, ◌==◌, refl, inr, true, false, not, some, none, length, take, drop, word_at, arith,
}
use notatin.Outcome.{ok}
use notatin.Log.{Logs, empty}
use notatin.Nom.Reader.{reader}
use notatin.BaseBlock.{BaseBlock, file_type_from_value}
use notatin.BaseBlock.Header.{HeaderAt, ExtensionAt}
use notatin.BaseBlock.Sample.{
  plain_guids, blank_file, blank_file-IsBytes, blank_file_long, blank_file_signed,
}
use notatin.Parser.{Parser, init_base_block, update_header}
use notatin.Parser.Header.{Readable, header_sum, init_base_block_result}
use notatin.Parser.Update.{Consistent, update_header-Consistent}

abbrev fresh : Parser plain_guids (Unit {0})
fresh = record {
  file_info = record { hbin_offset_absolute = 0; buffer = blank_file };
  info = empty;
  rest = tt;
  base_block = none;
  recover_deleted = false;
}

pub blank_file-Readable : Readable blank_file
unfolding file_type_from_value
blank_file-Readable = record {
  long = blank_file_long;
  signed = blank_file_signed;
  supported = refl;
}

init_base_block_result_example :
    (b : BaseBlock plain_guids) × (logs : Logs) × HeaderAt blank_file b.base
    × ExtensionAt plain_guids blank_file b.ext
    × (init_base_block reader fresh
        ≡ ok (
          record {
            file_info = record { hbin_offset_absolute = 4096; buffer = blank_file };
            info = logs;
            rest = tt;
            base_block = some b;
            recover_deleted = false;
          },
          true,
          not (header_sum blank_file == word_at 4 blank_file 508),
        ))
init_base_block_result_example = init_base_block_result reader fresh blank_file-Readable

update_header-Consistent_example :
    (p' : Parser plain_guids (Unit {0})) × (update_header reader 7 fresh ≡ ok p')
    × Consistent 7 p'
    × (length p'.file_info.buffer ≡ length blank_file)
    × (take 8 (drop 600 p'.file_info.buffer) ≡ take 8 (drop 600 blank_file))
    × (p'' : Parser plain_guids (Unit {0})) × (init_base_block reader p' ≡ ok (p'', true, false))
update_header-Consistent_example =
    update_header-Consistent reader 7 (omega arith) fresh 8 600 blank_file-IsBytes
      blank_file-Readable (inr (inr (omega arith)))
