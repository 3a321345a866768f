-- ===== src/Text/Tests.antt =====
-- Runs on a text with a quote and a comma, and on letters.
use notatin.Base.{ℕ, ◌≡◌, refl, some, List, [], ◌∷◌, ◌++◌}
use notatin.Text.{escape_string, to_hex_string}
use notatin.Text.Roundtrip.{read_field, read_field-escape_string}

hex : to_hex_string (0x1f ∷ 0xa0 ∷ []) ≡ 0x31 ∷ 0x46 ∷ 0x20 ∷ 0x41 ∷ 0x30 ∷ []
unfolding to_hex_string
hex = refl

abbrev quoted : List ℕ
quoted = 0x61 ∷ 0x2c ∷ 0x22 ∷ []

read_field-escape_string_example :
    read_field (escape_string quoted ++ 9 ∷ 0x62 ∷ []) ≡ some (quoted, 9 ∷ 0x62 ∷ [])
read_field-escape_string_example = read_field-escape_string quoted (9 ∷ 0x62 ∷ []) refl
