-- ===== src/Lznt1/Ends.antt =====
-- The decompression ends on every input: with output, or with a panic.
use notatin.Base.{
  ℕ, zero, suc, ◌+◌, ◌-◌, ◌/◌, ◌%◌, ◌^◌, ◌≤◌, ◌≡◌, refl, ◌⊎◌, inl, inr, Bool, true, false, Option,
  none, some, [], Bytes, get_elem?, get_range, ltb, leb, ltb→lt, arith, if_both,
}
use notatin.Outcome.{Outcome, ok, panic, expect, ◌>>=◌}
use notatin.Lznt1.{
  Progress, copy_back, read_u16, literal_token, phrase_token, token_loop, tag_loop, stored_block,
  compressed_block, sub_block, block_loop, decode_lznt1, compression_bits,
}

-- A run that ends with a value which `P` holds of, or panics.
abbrev Settles : {A : Type 0} → (A → Type 0) → Outcome A → Type 0
Settles {A} P o = ((a : A) × (o ≡ ok a) × P a) ⊎ (o ≡ panic)

Settles-bind :
    {A B : Type 0} (P : A → Type 0) (Q : B → Type 0) (first : Outcome A) (next : A → Outcome B)
    → Settles P first
    → ((a : A) → P a → Settles Q (next a))
    → Settles Q (first >>= next)
Settles-bind P Q first next (inl (a, e, p)) h = rw e (h a p)
Settles-bind P Q first next (inr e) h = inr (rw e refl)

-- A test settles if each of its branches does where it is taken.
Settles-elim :
    {A : Type 0} (P : A → Type 0) (b : Bool) (x y : Outcome A)
    → (b ≡ true → Settles P x)
    → (b ≡ false → Settles P y)
    → Settles P (elim b [ true ↦ x | false ↦ y ])
Settles-elim P true x y h k = h refl
Settles-elim P false x y h k = k refl

Settles-number :
    {A : Type 0} (P : A → Type 0) (n : ℕ) (x : Outcome A) (y : ℕ → Outcome A)
    → Settles P x
    → ((m : ℕ) → Settles P (y m))
    → Settles P (elim n [ zero ↦ x | suc m ↦ y m ])
Settles-number P zero x y h k = h
Settles-number P (suc m) x y h k = k m

abbrev Anything : {A : Type 0} → A → Type 0
Anything a = Unit

expect-Settles : {A : Type 0} (o : Option A) → Settles Anything (expect o)
expect-Settles none = inr refl
expect-Settles (some a) = inl (a, refl, tt)

-- The index into the source has not moved back.
abbrev From : ℕ → Progress → Type 0
From k p = k ≤ p.source_index

copy_back-Settles :
    (n addr : ℕ) (p : Progress) (k : ℕ) → From k p → Settles (From k) (copy_back n addr p)
unfolding copy_back
copy_back-Settles zero addr p k h = inl (p, refl, h)
copy_back-Settles (suc n) addr p k h =
    Settles-bind Anything (From k) (expect (get_elem? p.decompressed addr)) _
      (expect-Settles (get_elem? p.decompressed addr))
      λ byte _. copy_back-Settles n (suc addr) _ k h

module _ (source : Bytes) (source_offset : ℕ) where
  read_u16-Settles : (index : ℕ) → Settles Anything (read_u16 source source_offset index)
  unfolding read_u16
  read_u16-Settles index =
      Settles-bind Anything Anything (expect (get_range source index (index + 2))) _
        (expect-Settles (get_range source index (index + 2))) λ bytes _. inl (_, refl, tt)

  literal_token-Settles :
      (p : Progress) (k : ℕ) → From k p → Settles (From k) (literal_token source source_offset p)
  unfolding literal_token
  literal_token-Settles p k h =
      Settles-bind Anything (From k) (expect (get_elem? source (source_offset + p.source_index))) _
        (expect-Settles (get_elem? source (source_offset + p.source_index)))
        λ byte _. inl (_, refl, omega arith)

  phrase_token-Settles :
      (start : ℕ) (p : Progress) (k : ℕ)
      → From k p
      → Settles (From k) (phrase_token source source_offset start p)
  unfolding phrase_token
  phrase_token-Settles start p k h =
      Settles-bind Anything (From k) (expect (get_elem? compression_bits (p.dest_index - start))) _
        (expect-Settles (get_elem? compression_bits (p.dest_index - start)))
        λ bits _.
          Settles-bind Anything (From k)
            (read_u16 source source_offset (p.source_index + source_offset)) _
            (read_u16-Settles (p.source_index + source_offset))
            λ token _.
              Settles-elim (From k) (ltb (token / 2 ^ (16 - bits)) p.dest_index) _ panic
                (λ _.
                  copy_back-Settles (token % 2 ^ (16 - bits) + 3)
                    (p.dest_index - token / 2 ^ (16 - bits) - 1)
                    (record p { source_index = p.source_index + 2 }) k (omega arith))
                (λ _. inr refl)

  one_token-Settles :
      (bit start : ℕ) (p : Progress) (k : ℕ)
      → From k p
      → Settles (From k) (elim bit [
        | zero ↦ literal_token source source_offset p
        | suc _ ↦ phrase_token source source_offset start p
      ])
  one_token-Settles zero start p k h = literal_token-Settles p k h
  one_token-Settles (suc _) start p k h = phrase_token-Settles start p k h

  token_loop-Settles :
      (n tag end start : ℕ) (p : Progress) (k : ℕ)
      → From k p
      → Settles (From k) (token_loop source source_offset n tag end start p)
  unfolding token_loop
  token_loop-Settles zero tag end start p k h = inl (p, refl, h)
  token_loop-Settles (suc n) tag end start p k h =
      Settles-elim (From k) (leb end p.source_index) (ok p) _ (λ _. inl (p, refl, h))
        λ _.
          Settles-bind (From k) (From k) _ _ (one_token-Settles (tag % 2) start p k h)
            λ q g. token_loop-Settles n (tag / 2) end start q k g

  tag_loop-Settles :
      (fuel end start : ℕ) (p : Progress) (k : ℕ)
      → end ≤ p.source_index + fuel
      → From k p
      → Settles (From k) (tag_loop source source_offset (suc fuel) end start p)
  unfolding tag_loop
  tag_loop-Settles zero end start p k enough h =
      Settles-elim (From k) (ltb p.source_index end) _ (ok p)
        (λ more. absurd (omega (arith, ltb→lt p.source_index end more))) (λ _. inl (p, refl, h))
  tag_loop-Settles (suc fuel) end start p k enough h =
      Settles-elim (From k) (ltb p.source_index end) _ (ok p)
        (λ more.
          Settles-bind Anything (From k)
            (expect (get_elem? source (source_offset + p.source_index))) _
            (expect-Settles (get_elem? source (source_offset + p.source_index)))
            λ tag _.
              Settles-bind (From (suc p.source_index)) (From k) _ _
                (token_loop-Settles 8 tag end start (record p { source_index = suc p.source_index })
                  (suc p.source_index) (omega arith))
                λ q g. tag_loop-Settles fuel end start q k (omega arith) (omega arith))
        (λ _. inl (p, refl, h))

  sub_block-Settles :
      (header : ℕ) (p : Progress) (k : ℕ)
      → From k p
      → Settles (From k) (sub_block source source_offset header p)
  unfolding stored_block compressed_block
  sub_block-Settles header p k h =
      if_both (Settles (From k)) (ltb header 0x8000)
        (Settles-bind Anything (From k)
          (expect (
            get_range source (source_offset + p.source_index)
              (source_offset + p.source_index + (header % 0x1000 + 1))))
          _
          (expect-Settles (
            get_range source (source_offset + p.source_index)
              (source_offset + p.source_index + (header % 0x1000 + 1))))
          λ bytes _. inl (_, refl, omega arith))
        (tag_loop-Settles (header % 0x1000 + 1) (p.source_index + (header % 0x1000 + 1))
          p.dest_index p k (omega arith) h)

  block_loop-Settles :
      (fuel source_length : ℕ) (p : Progress)
      → source_length ≤ p.source_index + fuel
      → Settles Anything (block_loop source source_offset (suc fuel) source_length p)
  unfolding block_loop
  block_loop-Settles zero source_length p enough =
      Settles-elim Anything (ltb (p.source_index + source_offset) source_length) _ (ok p)
        (λ more. absurd (omega (arith, ltb→lt (p.source_index + source_offset) source_length more)))
        (λ _. inl (p, refl, tt))
  block_loop-Settles (suc fuel) source_length p enough =
      Settles-elim Anything (ltb (p.source_index + source_offset) source_length) _ (ok p)
        (λ _.
          Settles-bind Anything Anything
            (read_u16 source source_offset (p.source_index + source_offset)) _
            (read_u16-Settles (p.source_index + source_offset))
            λ header _.
              Settles-number Anything header (ok (record p { source_index = p.source_index + 2 })) _
                (inl (_, refl, tt))
                λ h.
                  Settles-bind (From (p.source_index + 2)) Anything _ _
                    (sub_block-Settles (suc h) (record p { source_index = p.source_index + 2 })
                      (p.source_index + 2) (omega arith))
                    λ q g. block_loop-Settles fuel source_length q (omega arith))
        (λ _. inl (p, refl, tt))

-- The decompression of every input ends, with output or with a panic. It never returns an error, not for
-- an input that is cut short or refers to output that is not there.
pub decode_lznt1_ends :
    (source : Bytes) (source_offset source_length : ℕ)
    → ((output : Bytes) × (decode_lznt1 source source_offset source_length ≡ ok output))
      ⊎ (decode_lznt1 source source_offset source_length ≡ panic)
unfolding decode_lznt1
decode_lznt1_ends source source_offset source_length =
    elim (Settles-bind Anything Anything _ (λ (p : Progress). ok p.decompressed)
      (block_loop-Settles source source_offset source_length source_length
        (record { decompressed = []; source_index = 0; dest_index = 0 }) (omega arith))
      (λ p _. inl (p.decompressed, refl, tt))) [
        | inl (output, e, _) ↦ inl (output, e)
        | inr e ↦ inr e
      ]
