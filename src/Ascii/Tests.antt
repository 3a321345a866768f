-- ===== src/Ascii/Tests.antt =====
-- A run on a text with a character outside ASCII.
use notatin.Base.{◌≡◌, [], ◌∷◌, arith}
use notatin.Outcome.{ok}
use notatin.Log.{empty}
use notatin.Ascii.{from_ascii}
use notatin.Ascii.Latin.{from_ascii-eq}

from_ascii-eq_example : from_ascii (0x41 ∷ 0xe9 ∷ []) [] empty ≡ ok (0x41 ∷ 0xe9 ∷ [], empty)
from_ascii-eq_example = from_ascii-eq (0x41 ∷ 0xe9 ∷ []) [] empty (omega arith)
