-- ===== src/Lib.antt =====
-- notatin, a parser of offline Windows registry hives: its reading of a file's header, of keys and
-- values, its text readers, the iteration over the key tree, and the recovery of a dirty hive from its
-- transaction logs.
--
-- How the program is put together. A parser (src/parser.rs) holds the bytes of the primary file
-- (src/file_info.rs), the header that was read from it (src/base_block.rs), logs of warnings
-- (src/log.rs) and the state of the key tree. `Parser::init` reads the header, and, if the file is of a
-- supported type, replays the transaction logs that were read before (src/transaction_log.rs): logs are
-- sorted by age, every entry carries two hashes (src/marvin32.rs), the pages of an applied entry are
-- written over the buffer, and at the end the header is rewritten. A key (src/cell_key_node.rs) is read
-- at an offset of the buffer, with its values (src/cell_key_value.rs, src/cell_big_data.rs) and the lists
-- of its sub keys; the iterators of src/parser.rs keep stacks of keys, read the sub keys of the key they
-- visit and pass the state of the filter on. The content of a value is decoded with src/cell_value.rs and
-- the helpers of src/util.rs.
--
-- What stands where:
-- Base - numbers, lists measured by native numbers, bytes, little-endian words, bit laws, and what a
--   write over a buffer changes. A `u32` or `u64` is a native number with its wrap-around written out.
-- Outcome - src/err.rs, and the ends of a Rust call: a value, an `Err`, a panic.
-- Log - src/log.rs. A formatted text is the list of its parts; printing is not modelled.
-- Nom - the combinators of the crate nom that the code calls, as an interface of operations and laws.
--   Nom/Reader fills it with functions that have the laws.
-- Utf16 - `from_utf16_le_string_single`, `from_utf16_le_string` and `from_utf16_le_strings` of
--   src/util.rs. A string is the list of its code points.
-- Ascii - `from_ascii` and `string_from_bytes` of src/util.rs.
-- BaseBlock - src/base_block.rs, with the enumerations of src/macros.rs and the dates and identifiers
--   of src/util.rs. `Guid` of the crate winstructs is the parameter `Guids`.
-- Parser - the state of the parser and the reading, checking and rewriting of the header
--   (`init_base_block`, `check_base_block`, `update_header_after_transaction_logs`). `S` stands for the
--   fields that none of this reads: the root key, the bin header, the maps of cells.
-- Marvin32 - src/marvin32.rs.
-- TransactionLog - `LogEntry::from_bytes_internal`, the hashes, `TransactionLog::from_bytes` and
--   `parse`; TransactionLog/Replay: `update_parser`.
-- Recovery - `prepare_transaction_logs`, `handle_bad_checksum`, `apply_transaction_logs` and `init` of
--   src/parser.rs.
-- SubKeyList - src/sub_key_list_lf.rs, src/sub_key_list_lh.rs, src/sub_key_list_li.rs,
--   src/sub_key_list_ri.rs and `parse_sub_key_list` and `parse_key_values` of
--   src/cell_key_node.rs. SubKeyList/Tree: the trees of lists that a file can hold.
-- State - the maps of src/state.rs, as association lists. A cell is what the maps read of it.
-- HiveBin - src/hive_bin_header.rs.
-- Value - the data types of src/cell_key_value.rs and `CellValue` of src/cell_value.rs with the content
--   of each type. Value/Cell: the cell of a value and its name, with `CellState` of src/cell.rs;
--   Value/BigData: src/cell_big_data.rs; Value/Read: `read_value_bytes` and `get_content`, with the three
--   places where data can stand; Value/Decode: `decode_content`. The hash of the crate blake3 is a
--   parameter.
-- Lznt1 - `decode_lznt1` of src/util.rs with its table.
-- KeyNode - the record of src/cell_key_node.rs, its flags and its parsing; KeyNode/Values: `read_values`;
--   KeyNode/Modified: `update_modified_lists` over the state; KeyNode/Read: `read` and
--   `read_from_slice`, where `Env` gathers what is not of this repository; KeyNode/SubKeys:
--   `read_sub_keys_internal`.
-- Iterator - `ParserIteratorContext` of src/parser.rs and what both loops do with a key; Iterator/Next:
--   `next_key_preorder`, `next_key_postorder` and the counts.
-- Lookup - `get_root_key`, `get_sub_key`, `get_key` and `get_parent_key` of src/parser.rs and the searches
--   of src/cell_key_node.rs.
-- Deleted - src/parser_recover_deleted.rs, on the state and the log of the parser, with `CellType` of
--   src/cell.rs; Deleted/Bins: its walk over a bin, and `find_free_keys_and_values` of src/parser.rs.
-- Root - `init_root` of src/parser.rs; `read_sub_keys`, `get_security_descriptors`, `get_pretty_path` and
--   `last_key_written_date_and_time` of src/cell_key_node.rs.
-- Builder - the builder on readers of src/parser_builder.rs, and `ParserBuilder::build`.
-- Security - src/cell_key_security.rs. `SecurityDescriptor` of the crate winstructs is a parameter.
-- Text - `get_pretty_name`, `to_hex_string`, `escape_string` and `decode_rot13` of src/util.rs.
-- Filter - src/filter.rs and `get_root_path_offset` of src/util.rs and src/state.rs.
--
-- Loops and fuel. The checksum loop has 128 rounds of fuel for its 127 words; the loop over the strings
-- of a list has two rounds more than half of `count`, since a round moves on by two bytes at least; the
-- hash has one round more than there are bytes; the decompression has one round more than the input is
-- long, and than a sub block is long for its tags. That this is enough is part of the theorems, which
-- give results and not `no_fuel`. The search for deleted cells has one round more than the file is long:
-- every round moves on by a byte at least, or into slack that is shorter than its cell. The descent into
-- lists of lists, the walk of the security cells, the lists of modified keys and the iteration have the
-- fuel that their caller gives, since the code has no bound there. The other loops are recursions on
-- lists.
--
-- Not modelled. The comparison of the keys before and after a log entry (`TransactionAnalyzer`,
-- `get_reg_items`): for the replay it is, with `init_root` and the search for deleted cells, the
-- interface `Analysis`, which changes neither the buffer nor the header, as that code does not. Reading
-- files, the console, printing, serializing, the command-line tools and the Python bindings are input and
-- output. The offsets of single fields, which are only printed, and the text form of dates are left out.
-- Subtraction that the code does on machine integers is written out where it can go below zero; the
-- sequence number after 2 ^ 32 - 1 is 0, as in a release build.
pub mod Base
pub mod Outcome
pub mod Log
pub mod Nom
pub mod Utf16
pub mod Ascii
pub mod Text
pub mod BaseBlock
pub mod Parser
pub mod Marvin32
pub mod TransactionLog
pub mod Recovery
pub mod SubKeyList
pub mod State
pub mod Filter
pub mod HiveBin
pub mod Value
pub mod Lznt1
pub mod KeyNode
pub mod Iterator
pub mod Security
pub mod Lookup
pub mod Deleted
pub mod Root
pub mod Builder
