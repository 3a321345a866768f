-- ===== src/Nom/Encode.antt =====
-- Words that are written and read back.
use notatin.Base.{
  ℕ, ◌-◌, ◌^◌, ◌≤◌, ◌<◌, ◌≡◌, ap, ◌∙◌, ◌++◌, Bytes, length, to_le, from_le-to_le_four, signed32,
  unsigned_abs, le→leb, arith,
}
use notatin.Nom.{Nom, done}

module _ (nom : Nom) where
  pub le_u32-to_le :
      (w : ℕ) (rest : Bytes) → w < 2 ^ 32 → nom.le_u32 (to_le 4 w ++ rest) ≡ done rest w
  le_u32-to_le w rest h =
      nom.le_u32_lem (to_le 4 w ++ rest)
      ∙ rw (le→leb 4 (length (to_le 4 w ++ rest)) (omega arith))
          (ap (done rest) (from_le-to_le_four w h))

  pub le_u16-to_le :
      (w : ℕ) (rest : Bytes) → w < 2 ^ 16 → nom.le_u16 (to_le 2 w ++ rest) ≡ done rest w
  le_u16-to_le w rest h =
      nom.le_u16_lem (to_le 2 w ++ rest)
      ∙ rw (le→leb 2 (length (to_le 2 w ++ rest)) (omega arith)) (ap (done rest) (omega arith))

  pub le_i32-to_le :
      (w : ℕ) (rest : Bytes) → w < 2 ^ 32 → nom.le_i32 (to_le 4 w ++ rest) ≡ done rest (signed32 w)
  le_i32-to_le w rest h =
      nom.le_i32_lem (to_le 4 w ++ rest)
      ∙ rw (le→leb 4 (length (to_le 4 w ++ rest)) (omega arith))
          (ap (λ t. done rest (signed32 t)) (from_le-to_le_four w h))

-- The size of a cell in use is written below zero.
abbrev pub cell_size : ℕ → Bytes
cell_size size = to_le 4 (2 ^ 32 - size)

pub cell_size_abs :
    (size : ℕ) → 0 < size → size ≤ 2 ^ 31 → unsigned_abs (signed32 (2 ^ 32 - size)) ≡ size
cell_size_abs size h k = ground arith
