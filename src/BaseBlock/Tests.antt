-- ===== src/BaseBlock/Tests.antt =====
-- Runs of the header's reader and of its checksum.
use notatin.Base.{
  ℕ, ◌≡◌, ◌<◌, ◌⊎◌, ◌^◌, ◌-◌, refl, [], ◌∷◌, ◌++◌, Bytes, drop, take, replicate, from_le, arith,
}
use notatin.Outcome.{ok}
use notatin.Nom.{done}
use notatin.Nom.Reader.{reader}
use notatin.BaseBlock.{BaseBlock, adjust, calculate_checksum, base_block_from_bytes}
use notatin.BaseBlock.Checksum.{
  xor_words, calculate_checksum-eq-xor_words, calculate_checksum_range, calculate_checksum_detects,
}
use notatin.BaseBlock.Header.{HeaderAt, ExtensionAt, base_block_from_bytes-done}
use notatin.BaseBlock.Sample.{
  plain_guids, blank_file, blank_file-IsBytes, blank_file_long, blank_file_signed,
}

blank_sum : calculate_checksum blank_file ≡ ok 0x66676572
unfolding calculate_checksum
blank_sum = refl

calculate_checksum-eq-xor_words_example :
    calculate_checksum blank_file ≡ ok (adjust (xor_words (take 508 blank_file)))
calculate_checksum-eq-xor_words_example =
    calculate_checksum-eq-xor_words blank_file (omega (arith, blank_file_long))

calculate_checksum_range_example :
    (c : ℕ) × (calculate_checksum blank_file ≡ ok c) × (0 < c) × (c < 2 ^ 32 - 1)
calculate_checksum_range_example =
    calculate_checksum_range blank_file blank_file-IsBytes (omega (arith, blank_file_long))

abbrev word : Bytes
word = 7 ∷ 0 ∷ 0 ∷ 0 ∷ []

calculate_checksum_detects_example :
    (from_le word ≡ from_le word)
    ⊎ (calculate_checksum ([] ++ (word ++ replicate 508 0)) ≡ ok 1)
    ⊎ (calculate_checksum ([] ++ (word ++ replicate 508 0)) ≡ ok 0xfffffffe)
calculate_checksum_detects_example =
    calculate_checksum_detects 0 [] word word (replicate 508 0) refl refl refl (omega arith)
      (omega arith) refl

base_block_from_bytes-done_example :
    (b : BaseBlock plain_guids) × (base_block_from_bytes reader plain_guids blank_file
      ≡ done (drop 4096 blank_file) b)
    × HeaderAt blank_file b.base
    × ExtensionAt plain_guids blank_file b.ext
base_block_from_bytes-done_example =
    base_block_from_bytes-done reader plain_guids blank_file blank_file_long blank_file_signed
