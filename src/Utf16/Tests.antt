-- ===== src/Utf16/Tests.antt =====
-- Runs of the UTF-16 readers on the buffers of the unit tests in src/util.rs.
use notatin.Base.{ℕ, ◌++◌, length, arith, ◌≡◌, refl, List, [], ◌∷◌}
use notatin.Outcome.{ok}
use notatin.Log.{Logs, empty}
use notatin.Utf16.{from_utf16_le_string, from_utf16_le_strings, is_blank}
use notatin.Utf16.Encode.{AllText, AllBasic, encode_utf16, unit_bytes}
use notatin.Utf16.Single.{terminated, from_utf16_le_string-terminated}
use notatin.Utf16.Multi.{
  encode_multi, from_utf16_le_strings-encode_multi, from_utf16_le_strings_supplementary,
}
use notatin.Utf16.Total.{from_utf16_le_string_total}

four_byte_char :
    from_utf16_le_string (0x28 ∷ 0 ∷ 0x01 ∷ 0xd8 ∷ 0x37 ∷ 0xdc ∷ 0x29 ∷ 0 ∷ []) 8 [] empty
    ≡ ok (0x28 ∷ 0x10437 ∷ 0x29 ∷ [], empty)
unfolding from_utf16_le_string
four_byte_char = refl

two_strings :
    from_utf16_le_strings (77 ∷ 0 ∷ 105 ∷ 0 ∷ 0 ∷ 0 ∷ 66 ∷ 0 ∷ 0 ∷ 0 ∷ 0 ∷ 0 ∷ []) 12 [] empty
    ≡ ok ((77 ∷ 105 ∷ []) ∷ (66 ∷ []) ∷ [], empty)
unfolding from_utf16_le_strings
two_strings = refl

-- "Mi" and U+10437.
abbrev mi : List ℕ
mi = 77 ∷ 105 ∷ []

abbrev letter : List ℕ
letter = 0x10437 ∷ []

mi-AllText : AllText mi
mi-AllText = (
  record { not_nul = omega arith; is_scalar = omega arith; in_range = omega arith },
  (record { not_nul = omega arith; is_scalar = omega arith; in_range = omega arith }, tt),
)

mi-AllBasic : AllBasic mi
mi-AllBasic = (omega arith, (omega arith, tt))

letter-AllText : AllText letter
letter-AllText =
    (record { not_nul = omega arith; is_scalar = omega arith; in_range = omega arith }, tt)

from_utf16_le_string-terminated_example :
    from_utf16_le_string (terminated letter ++ 1 ∷ 2 ∷ []) 6 [] empty ≡ ok (letter, empty)
unfolding encode_utf16 unit_bytes
from_utf16_le_string-terminated_example =
    from_utf16_le_string-terminated letter (1 ∷ 2 ∷ []) 6 [] empty letter-AllText (omega arith)
      (omega arith)

from_utf16_le_strings-encode_multi_example :
    from_utf16_le_strings (encode_multi (mi ∷ mi ∷ []) ++ 1 ∷ 2 ∷ []) 16 [] empty
    ≡ ok (mi ∷ mi ∷ [], empty)
unfolding encode_multi encode_utf16 unit_bytes is_blank
from_utf16_le_strings-encode_multi_example =
    from_utf16_le_strings-encode_multi (mi ∷ mi ∷ []) (1 ∷ 2 ∷ []) 16 [] empty
      (mi-AllText, mi-AllBasic, refl, (mi-AllText, mi-AllBasic, refl, tt)) (omega arith)
      (omega arith)

from_utf16_le_strings_supplementary_example :
    from_utf16_le_strings
      (terminated letter ++ terminated mi)
      (length (terminated letter ++ terminated mi))
      []
      empty
    ≡ ok (letter ∷ [], empty)
unfolding encode_utf16 is_blank
from_utf16_le_strings_supplementary_example =
    from_utf16_le_strings_supplementary letter (terminated mi) [] empty letter-AllText refl refl

from_utf16_le_string_total_example :
    (r : List ℕ × Logs) × (from_utf16_le_string (0 ∷ 0xdc ∷ 7 ∷ []) 3 [] empty ≡ ok r)
from_utf16_le_string_total_example =
    from_utf16_le_string_total (0 ∷ 0xdc ∷ 7 ∷ []) 3 [] empty (omega arith)
