-- ===== src/Utf16/Encode.antt =====
-- The UTF-16LE encoding of a text, as `encode_utf16` and `to_le_bytes` of Rust's standard library make
-- it: the description that the readers are measured against.
use notatin.Base.{
  ℕ, ◌+◌, ◌-◌, ◌/◌, ◌%◌, ◌<◌, ◌≤◌, ◌≢◌, ◌⊎◌, List, [], ◌∷◌, ◌++◌, Bytes, ltb, if◌then◌else◌,
}

-- A Unicode scalar value that is not NUL.
pub record IsText (c : ℕ) : Type 0 where
  pub not_nul : c ≢ 0
  pub is_scalar : (c < 0xd800) ⊎ (0xe000 ≤ c)
  pub in_range : c < 0x110000

abbrev pub AllText : List ℕ → Type 0
AllText [] = Unit
AllText (c ∷ cs) = IsText c × AllText cs

-- Characters of the basic multilingual plane only: no surrogate pair is needed.
abbrev pub AllBasic : List ℕ → Type 0
AllBasic [] = Unit
AllBasic (c ∷ cs) = (c < 0x10000) × AllBasic cs

abbrev pub encode_char : ℕ → List ℕ
encode_char c =
    if ltb c 0x10000
    then c ∷ []
    else (0xd800 + (c - 0x10000) / 1024) ∷ (0xdc00 + (c - 0x10000) % 1024) ∷ []

unfoldable pub encode_utf16 : List ℕ → List ℕ
encode_utf16 [] = []
encode_utf16 (c ∷ cs) = encode_char c ++ encode_utf16 cs

unfoldable pub unit_bytes : List ℕ → Bytes
unit_bytes [] = []
unit_bytes (u ∷ us) = u % 256 ∷ u / 256 ∷ unit_bytes us
