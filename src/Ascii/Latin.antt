-- ===== src/Ascii/Latin.antt =====
-- `from_ascii` reads every byte as the character of that number.
use notatin.Base.{
  ℕ, ◌<◌, ◌≡◌, refl, inl, inr, false, List, [], ◌∷◌, Bytes, IsBytes, ltb, Bool-cases, arith, ◌==◌,
}
use notatin.Outcome.{ok, ◌>>=◌}
use notatin.Log.{Logs, Part}
use notatin.Utf16.{decode_utf16, collect, is_surrogate}
use notatin.Ascii.{from_ascii}

not_surrogate : (b : ℕ) → b < 256 → is_surrogate b ≡ false
not_surrogate b h = ground arith

not_nul : (b : ℕ) → ltb b 128 ≡ false → (b == 0) ≡ false
not_nul b h = ground arith

-- Text of one byte for each character is read without a panic and without a warning, and the code
-- points are the bytes.
pub from_ascii-eq :
    (bytes : Bytes) (detail : List Part) (logs : Logs)
    → IsBytes bytes
    → from_ascii bytes detail logs ≡ ok (bytes, logs)
unfolding from_ascii decode_utf16 collect
from_ascii-eq [] detail logs h = refl
from_ascii-eq (b ∷ bytes) detail logs h = elim (Bool-cases (ltb b 128)) [
  | inl ascii ↦ rw (ascii, from_ascii-eq bytes detail logs h.1, ◌>>=◌, from_ascii)
  | inr latin ↦ rw (
    latin,
    not_surrogate b h.0,
    not_nul b latin,
    from_ascii-eq bytes detail logs h.1,
    ◌>>=◌,
    from_ascii,
  )
]
