-- ===== src/Utf16.antt =====
-- src/util.rs, UTF-16 text: `from_utf16_le_string_single`, `from_utf16_le_string` and
-- `from_utf16_le_strings`. A `String` is the list of its code points; `decode_utf16` is the iterator of
-- Rust's standard library, which pairs surrogates and reports a unit that has no partner.
pub mod Encode
pub mod Single
pub mod Multi
pub mod Total
pub mod Tests
use notatin.Base.{
  ℕ, zero, suc, ◌+◌, ◌-◌, ◌*◌, ◌/◌, ◌≤◌, ◌<◌, Bool, true, false, not, ◌&&◌, ◌||◌, List, [], ◌∷◌,
  ◌++◌, Bytes, length, take, drop, ltb, leb, ◌==◌, if◌then◌else◌,
}
use notatin.Outcome.{Outcome, ok, panic, no_fuel, ◌>>=◌}
use notatin.Log.{Logs, Part, lit, num, add, warning_conversion}

-- What the iterator over the units yields: a character, a unit without a partner, or the panic of
-- an index past the end of the slice.
pub data Item : Type 0 where
  char : ℕ → Item
  unpaired : ℕ → Item
  out_of_range : Item

abbrev pub is_surrogate : ℕ → Bool
is_surrogate u = leb 0xd800 u && ltb u 0xe000

abbrev pub is_low_surrogate : ℕ → Bool
is_low_surrogate u = leb 0xdc00 u && ltb u 0xe000

abbrev pub join : ℕ → ℕ → ℕ
join u v = 0x10000 + (u - 0xd800) * 1024 + (v - 0xdc00)

abbrev at_end : Bool → List Item
at_end missing = if missing then out_of_range ∷ [] else []

-- `missing`: units are still to come by the caller's count, but the slice has no more.
unfoldable pub decode_utf16 : Bool → List ℕ → List Item
decode_utf16 missing [] = at_end missing
decode_utf16 missing (u ∷ []) =
    if not (is_surrogate u)
    then char u ∷ at_end missing
    else if is_low_surrogate u
    then unpaired u ∷ at_end missing
    else if missing
    then out_of_range ∷ []
    else unpaired u ∷ []
decode_utf16 missing (u ∷ v ∷ rest) =
    let next = decode_utf16 missing (v ∷ rest) in
    let after = decode_utf16 missing rest in
    if not (is_surrogate u)
    then char u ∷ next
    else if is_low_surrogate u
    then unpaired u ∷ next
    else if is_low_surrogate v
    then char (join u v) ∷ after
    else unpaired u ∷ next

-- `u16::from_le_bytes` of each pair of bytes.
unfoldable pub units : Bytes → List ℕ
units [] = []
units (a ∷ []) = []
units (a ∷ b ∷ rest) = (a + 256 * b) ∷ units rest

pub record Decoded : Type 0 where
  pub text : List ℕ
  pub char_count : ℕ
  pub logs : Logs

abbrev pub replacement_character : ℕ
replacement_character = 0xfffd

abbrev push_char : ℕ → Decoded → Decoded
push_char c d = record d { text = c ∷ d.text; char_count = d.char_count + 1 }

-- `map`, `take_while` and `collect` in one pass: a NUL ends the text, and is counted.
unfoldable pub collect : List Part → List Item → Logs → Outcome Decoded
collect detail [] logs = ok (record { text = []; char_count = 0; logs = logs })
collect detail (char c ∷ rest) logs =
    let more = collect detail rest logs in
    if c == 0
    then ok (record { text = []; char_count = 1; logs = logs })
    else (do d ← more; ok (push_char c d))
collect detail (unpaired u ∷ rest) logs = do
  d ←
      collect detail rest
        (add warning_conversion (detail ++ lit ": unpaired surrogate found: " ∷ num u ∷ []) logs)
  ok (push_char replacement_character d)
collect detail (out_of_range ∷ rest) logs = panic

unfoldable pub from_utf16_le_string_single : Bytes → ℕ → List Part → Logs → Outcome Decoded
unfolding decode_utf16 units collect
from_utf16_le_string_single slice count detail logs = do
  d ←
      collect detail
        (decode_utf16 (ltb (length slice / 2) (count / 2)) (take (count / 2) (units slice))) logs
  ok (if ltb 0 d.char_count then record d { char_count = d.char_count - 1 } else d)

unfoldable pub from_utf16_le_string : Bytes → ℕ → List Part → Logs → Outcome (List ℕ × Logs)
unfolding from_utf16_le_string_single
from_utf16_le_string slice count detail logs =
    if leb count (length slice)
    then (do d ← from_utf16_le_string_single slice count detail logs; ok (d.text, d.logs))
    else panic

-- `char::is_whitespace`.
abbrev pub is_whitespace : ℕ → Bool
is_whitespace c =
    leb 9 c && leb c 13
    || c == 32
    || c == 0x85
    || c == 0xa0
    || c == 0x1680
    || leb 0x2000 c && leb c 0x200a
    || c == 0x2028
    || c == 0x2029
    || c == 0x202f
    || c == 0x205f
    || c == 0x3000

-- `s.trim().is_empty()`.
unfoldable pub is_blank : List ℕ → Bool
is_blank [] = true
is_blank (c ∷ cs) = is_whitespace c && is_blank cs

-- The loop of `from_utf16_le_strings`. An offset past the slice panics in `&slice[offset..]`.
unfoldable pub strings_loop : ℕ → Bytes → ℕ → ℕ → List Part → Logs → Outcome (List (List ℕ) × Logs)
strings_loop zero slice count offset detail logs = no_fuel
strings_loop (suc fuel) slice count offset detail logs = elim (ltb offset count) [
  | false ↦ ok ([], logs)
  | true ↦ elim (leb offset (length slice)) [
    | false ↦ panic
    | true ↦ do
      d ← from_utf16_le_string_single (drop offset slice) (count - offset) detail logs
      elim (is_blank d.text) [
        | true ↦ ok ([], d.logs)
        | false ↦ do
          more ← strings_loop fuel slice count (offset + (d.char_count * 2 + 2)) detail d.logs
          ok (d.text ∷ more.0, more.1)
      ]
  ]
]

-- Each round moves the offset by two bytes at least, so half of `count` rounds are enough.
unfoldable pub from_utf16_le_strings : Bytes → ℕ → List Part → Logs → Outcome (List (List ℕ) × Logs)
unfolding strings_loop is_blank from_utf16_le_string_single
from_utf16_le_strings slice count detail logs =
    strings_loop (suc (suc (count / 2))) slice count 0 detail logs
