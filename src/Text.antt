-- ===== src/Text.antt =====
-- src/util.rs, text for output: `get_pretty_name`, `to_hex_string`, `escape_string` and `decode_rot13`. A
-- string is the list of its code points.
pub mod Roundtrip
pub mod Tests
use notatin.Base.{
  ℕ, ◌+◌, ◌-◌, ◌/◌, ◌%◌, Bool, true, false, ◌&&◌, ◌||◌, List, [], ◌∷◌, ◌++◌, map, Bytes, leb, ltb,
  ◌==◌, if◌then◌else◌,
}

-- "(default)".
unfoldable pub get_pretty_name : List ℕ → List ℕ
get_pretty_name [] = 0x28 ∷ 0x64 ∷ 0x65 ∷ 0x66 ∷ 0x61 ∷ 0x75 ∷ 0x6c ∷ 0x74 ∷ 0x29 ∷ []
get_pretty_name (c ∷ cs) = c ∷ cs

-- A digit of `{:02X}`.
abbrev pub hex_digit : ℕ → ℕ
hex_digit d = if ltb d 10 then 0x30 + d else 0x37 + d

-- `trim_end` on a text whose only white space is spaces.
unfoldable pub trim_spaces : List ℕ → List ℕ
trim_spaces [] = []
trim_spaces (c ∷ cs) = elim (trim_spaces cs) [
  | [] ↦ if c == 0x20 then [] else c ∷ []
  | d ∷ ds ↦ c ∷ (d ∷ ds)
]

unfoldable pub hex_bytes : Bytes → List ℕ
hex_bytes [] = []
hex_bytes (b ∷ bs) = hex_digit (b / 16) ∷ hex_digit (b % 16) ∷ 0x20 ∷ hex_bytes bs

unfoldable pub to_hex_string : Bytes → List ℕ
unfolding hex_bytes trim_spaces
to_hex_string bytes = trim_spaces (hex_bytes bytes)

abbrev pub quote : ℕ
quote = 0x22

-- The characters that make a field be quoted: tab, carriage return, line feed, comma and quote.
abbrev pub is_special : ℕ → Bool
is_special c = c == 9 || c == 13 || c == 10 || c == 0x2c || c == quote

unfoldable pub has_special : List ℕ → Bool
has_special [] = false
has_special (c ∷ cs) = is_special c || has_special cs

-- `replace` of a quote by two.
unfoldable pub double_quotes : List ℕ → List ℕ
double_quotes [] = []
double_quotes (c ∷ cs) =
    let rest = double_quotes cs in if c == quote then quote ∷ quote ∷ rest else c ∷ rest

unfoldable pub escape_string : List ℕ → List ℕ
unfolding has_special double_quotes
escape_string orig = if has_special orig then quote ∷ (double_quotes orig ++ quote ∷ []) else orig

-- The closure of `decode_rot13`.
unfoldable pub rot13 : ℕ → ℕ
rot13 c =
    if leb 0x41 c && leb c 0x4d || leb 0x61 c && leb c 0x6d
    then c + 13
    else if leb 0x4e c && leb c 0x5a || leb 0x6e c && leb c 0x7a
    then c - 13
    else c

unfoldable pub decode_rot13 : List ℕ → List ℕ
unfolding rot13
decode_rot13 text = map rot13 text
