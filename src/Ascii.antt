-- ===== src/Ascii.antt =====
-- src/util.rs, text of one byte for each character: `from_ascii` and `string_from_bytes`.
pub mod Latin
pub mod Tests
use notatin.Base.{ℕ, Bool, true, false, List, [], ◌∷◌, ◌++◌, Bytes, ltb}
use notatin.Outcome.{Outcome, ok, ◌>>=◌}
use notatin.Log.{Logs, Part}
use notatin.Utf16.{decode_utf16, collect, from_utf16_le_string}

-- A byte that is no ASCII character is read as an UTF-16 unit. The pass of Utf16 ends at a NUL, which
-- such a byte is not.
unfoldable pub from_ascii : Bytes → List Part → Logs → Outcome (List ℕ × Logs)
unfolding decode_utf16 collect
from_ascii [] detail logs = ok ([], logs)
from_ascii (b ∷ bs) detail logs = elim (ltb b 128) [
  | true ↦ from_ascii bs detail logs >>= λ r. ok (b ∷ r.0, r.1)
  | false ↦ collect detail (decode_utf16 false (b ∷ [])) logs >>= λ d.
      from_ascii bs detail d.logs >>= λ r. ok (d.text ++ r.0, r.1)
]

unfoldable pub string_from_bytes : Bool → Bytes → ℕ → List Part → Logs → Outcome (List ℕ × Logs)
unfolding from_ascii
string_from_bytes true slice count detail logs = from_ascii slice detail logs
string_from_bytes false slice count detail logs = from_utf16_le_string slice count detail logs
