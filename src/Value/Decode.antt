-- ===== src/Value/Decode.antt =====
-- src/cell_value.rs, the decoding of a content in another format.
use notatin.Base.{ℕ, ◌-◌, Option, none, some, List, [], ◌∷◌, map, Bytes, length, get_from}
use notatin.Outcome.{Outcome, ok, err, panic, no_fuel, ◌>>=◌}
use notatin.Log.{Logs, Part, lit, add, empty, get_option, warning_conversion}
use notatin.Utf16.{from_utf16_le_string, from_utf16_le_strings}
use notatin.Text.{decode_rot13}
use notatin.Lznt1.{decode_lznt1}
use notatin.Value.{CellValue, error_value, binary, string, multi_string}
use notatin.Value.Cell.{CellKeyValue}
use notatin.Value.Read.{get_content}

pub data DecodeFormat : Type 0 where
  lznt1 rot13 utf16 utf16_multiple : DecodeFormat

abbrev pub DecodedContent : Type 0
DecodedContent = CellValue × Option Logs

-- The content `Error` with one warning.
unfoldable pub refused : List Part → DecodedContent
refused text = (error_value, some (add warning_conversion text empty))

unfoldable pub decode_string : CellValue → DecodedContent
unfolding refused
decode_string (string s) = (string (decode_rot13 s), none)
decode_string (multi_string m) = (multi_string (map decode_rot13 m), none)
decode_string _ = refused (lit "Unsupported CellValue/format pair" ∷ [])

unfoldable pub decode_compressed : Bytes → ℕ → Outcome DecodedContent
unfolding refused
decode_compressed value_bytes offset = elim (decode_lznt1 value_bytes offset (length value_bytes)) [
  | ok decompressed ↦ ok (binary decompressed, none)
  | err e ↦ ok (refused (lit "Error decompressing lznt1" ∷ []))
  | panic ↦ panic
  | no_fuel ↦ no_fuel
]

unfoldable pub decode_text : Bytes → ℕ → Outcome DecodedContent
unfolding refused
decode_text value_bytes offset = elim (get_from value_bytes offset) [
  | some slice ↦ do
    r ← from_utf16_le_string slice (length value_bytes - offset) (lit "decode_content" ∷ []) empty
    ok (string r.0, get_option r.1)
  | none ↦ ok (refused (lit "Buffer too small" ∷ []))
]

-- The count is that of all bytes, also where the texts begin behind them.
unfoldable pub decode_texts : Bytes → ℕ → Outcome DecodedContent
unfolding refused
decode_texts value_bytes offset = elim (get_from value_bytes offset) [
  | some slice ↦ do
    r ← from_utf16_le_strings slice (length value_bytes) (lit "decode_content" ∷ []) empty
    ok (multi_string r.0, get_option r.1)
  | none ↦ ok (refused (lit "Buffer too small" ∷ []))
]

-- The formats that are decoded from bytes.
unfoldable pub decode_binary :
    (Bytes → ℕ → Outcome DecodedContent) → CellValue → ℕ → Outcome DecodedContent
unfolding refused
decode_binary decode_bytes (binary b) offset = decode_bytes b offset
decode_binary decode_bytes _ offset = ok (refused (lit "Unsupported CellValue/format pair" ∷ []))

-- `DecodeFormat::decode`, which is `decode_content` of a content.
unfoldable pub decode : DecodeFormat → CellValue → ℕ → Outcome DecodedContent
unfolding decode_binary decode_compressed decode_text decode_texts decode_string
decode lznt1 = decode_binary decode_compressed
decode utf16 = decode_binary decode_text
decode utf16_multiple = decode_binary decode_texts
decode rot13 = λ cell_value offset. ok (decode_string cell_value)

-- `decode_content` of a value.
unfoldable pub decode_content : CellKeyValue → DecodeFormat → ℕ → Outcome DecodedContent
unfolding decode get_content
decode_content v format offset = do content ← get_content v; decode format content.0 offset
