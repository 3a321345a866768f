-- ===== src/Nom/Steps.antt =====
-- One step of a chain of reads that started `k` bytes into a buffer.
use notatin.Base.{
  ℕ, ◌+◌, ◌≤◌, ◌≡◌, arith, Bytes, length, length-drop, take, drop, drop-drop, from_le, word_at,
  signed32, le→leb, ◌∙◌, ap,
}
use notatin.Nom.{NomErr, error, incomplete, done, fixed, Nom}

-- A read of `n` bytes that are there.
pub fixed-drop :
    {A : Type 0} (n k j : ℕ) (e : NomErr) (f : Bytes → A) (buf : Bytes)
    → j ≤ length buf
    → k + n ≡ j
    → fixed n e f (drop k buf) ≡ done (drop j buf) (f (drop k buf))
fixed-drop {A} n k j e f buf h s =
    rw (le→leb n (length (drop k buf)) (omega (arith, length-drop k buf)))
      (ap (λ t. done t (f (drop k buf))) (drop-drop n k j buf s))

module _ (nom : Nom) (buf : Bytes) (k j : ℕ) (h : j ≤ length buf) where
  pub le_u32-drop : k + 4 ≡ j → nom.le_u32 (drop k buf) ≡ done (drop j buf) (word_at 4 buf k)
  le_u32-drop s =
      nom.le_u32_lem (drop k buf) ∙ fixed-drop 4 k j error (λ i. from_le (take 4 i)) buf h s

  pub le_u64-drop : k + 8 ≡ j → nom.le_u64 (drop k buf) ≡ done (drop j buf) (word_at 8 buf k)
  le_u64-drop s =
      nom.le_u64_lem (drop k buf) ∙ fixed-drop 8 k j error (λ i. from_le (take 8 i)) buf h s

  pub le_u16-drop : k + 2 ≡ j → nom.le_u16 (drop k buf) ≡ done (drop j buf) (word_at 2 buf k)
  le_u16-drop s =
      nom.le_u16_lem (drop k buf) ∙ fixed-drop 2 k j error (λ i. from_le (take 2 i)) buf h s

  pub le_i32-drop :
      k + 4 ≡ j → nom.le_i32 (drop k buf) ≡ done (drop j buf) (signed32 (word_at 4 buf k))
  le_i32-drop s =
      nom.le_i32_lem (drop k buf)
      ∙ fixed-drop 4 k j error (λ i. signed32 (from_le (take 4 i))) buf h s

  pub take_streaming-drop :
      (n : ℕ)
      → k + n ≡ j
      → nom.take_streaming n (drop k buf) ≡ done (drop j buf) (take n (drop k buf))
  take_streaming-drop n s =
      nom.take_streaming_lem n (drop k buf) ∙ fixed-drop n k j incomplete (take n) buf h s

  pub take_complete-drop :
      (n : ℕ)
      → k + n ≡ j
      → nom.take_complete n (drop k buf) ≡ done (drop j buf) (take n (drop k buf))
  take_complete-drop n s =
      nom.take_complete_lem n (drop k buf) ∙ fixed-drop n k j error (take n) buf h s
