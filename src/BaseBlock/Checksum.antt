-- ===== src/BaseBlock/Checksum.antt =====
-- `BaseBlockBase::calculate_checksum` is the exclusive or of the 127 words before the stored
-- checksum, up to its two adjusted values.
use notatin.Base.{
  ℕ, zero, suc, ◌+◌, ◌-◌, ◌*◌, ◌≤◌, ◌<◌, ◌≡◌, ◌⊎◌, inl, inr, refl, ap, ◌∙◌, sym, bit_xor, ◌^◌, [],
  ◌∷◌, ◌++◌, Bytes, IsBytes, length, take, drop, from_le, leb, le→leb, arith, drop_all, Bool-cases,
  leb→le, take-append_right, length-append, take-IsBytes, length-take, length-drop, drop-drop,
  take-drop-take, get_range_within, get_range_beyond,
}
use notatin.Base.Bits.{
  bit_xor_assoc, bit_xor-zero, zero-bit_xor, bit_xor-lt, bit_xor_cancel_left, bit_xor_cancel,
}
use notatin.Outcome.{ok, err, buffer}
use notatin.BaseBlock.{adjust, checksum_loop, calculate_checksum}

-- The exclusive or of the little-endian words of a buffer.
unfoldable pub xor_words : Bytes → ℕ
xor_words (a ∷ b ∷ c ∷ d ∷ rest) = bit_xor (from_le (a ∷ b ∷ c ∷ d ∷ [])) (xor_words rest)
xor_words _ = 0

xor_words-four :
    (ws : Bytes)
    → 4 ≤ length ws
    → xor_words ws ≡ bit_xor (from_le (take 4 ws)) (xor_words (drop 4 ws))
unfolding xor_words
xor_words-four (a ∷ b ∷ c ∷ d ∷ rest) h = refl
xor_words-four [] h = absurd (omega arith)
xor_words-four (a ∷ []) h = absurd (omega arith)
xor_words-four (a ∷ b ∷ []) h = absurd (omega arith)
xor_words-four (a ∷ b ∷ c ∷ []) h = absurd (omega arith)

xor_words_empty : (i : ℕ) (bytes : Bytes) → 508 ≤ i → xor_words (drop i (take 508 bytes)) ≡ 0
unfolding xor_words
xor_words_empty i bytes h =
    ap xor_words (drop_all i (take 508 bytes) (omega (arith, length-take 508 bytes)))

checksum_loop_step :
    (f i x : ℕ) (bytes : Bytes)
    → i ≤ 507
    → i + 4 ≤ length bytes
    → checksum_loop (suc f) i x bytes
      ≡ checksum_loop f (i + 4) (bit_xor x (from_le (take 4 (drop i bytes)))) bytes
unfolding checksum_loop
checksum_loop_step f i x bytes h k =
    rw (le→leb i 0x01fb h, get_range_within bytes i 4 k, checksum_loop)

checksum_loop_end : (f x : ℕ) (bytes : Bytes) → checksum_loop (suc f) 508 x bytes ≡ ok (adjust x)
unfolding checksum_loop
checksum_loop_end f x bytes = refl

-- The sum from a word boundary on takes in the word that stands there.
xor_words-drop :
    (i x : ℕ) (bytes : Bytes)
    → i + 4 ≤ 508
    → 508 ≤ length bytes
    → bit_xor
        (bit_xor x (from_le (take 4 (drop i bytes))))
        (xor_words (drop (i + 4) (take 508 bytes)))
      ≡ bit_xor x (xor_words (drop i (take 508 bytes)))
xor_words-drop i x bytes h k =
    let window = drop i (take 508 bytes) in
    bit_xor_assoc x (from_le (take 4 (drop i bytes))) (xor_words (drop (i + 4) (take 508 bytes)))
    ∙ ap (bit_xor x) (
        ap (λ t. bit_xor (from_le t) (xor_words (drop (i + 4) (take 508 bytes))))
          (sym (take-drop-take 4 i 508 bytes h))
        ∙ ap (λ t. bit_xor (from_le (take 4 window)) (xor_words t))
            (sym (drop-drop 4 i (i + 4) (take 508 bytes) refl))
        ∙ sym (
            xor_words-four window
              (omega (arith, length-drop i (take 508 bytes), length-take 508 bytes))))

-- The loop from a word boundary on, with enough rounds.
checksum_loop-eq :
    (n f i x : ℕ) (bytes : Bytes)
    → 508 ≤ length bytes
    → i + 4 * n ≡ 508
    → n < f
    → checksum_loop f i x bytes ≡ ok (adjust (bit_xor x (xor_words (drop i (take 508 bytes)))))
checksum_loop-eq n zero i x bytes h e enough = absurd (omega arith)
checksum_loop-eq zero (suc f) i x bytes h e enough =
    let at_end : i ≡ 508 = omega arith in
    ap (λ t. checksum_loop (suc f) t x bytes) at_end
    ∙ checksum_loop_end f x bytes
    ∙ ap (λ t. ok (adjust t))
        (sym (bit_xor-zero x) ∙ ap (bit_xor x) (sym (xor_words_empty i bytes (omega arith))))
checksum_loop-eq (suc n) (suc f) i x bytes h e enough =
    checksum_loop_step f i x bytes (omega arith) (omega arith)
    ∙ checksum_loop-eq n f (i + 4) (bit_xor x (from_le (take 4 (drop i bytes)))) bytes h
        (omega arith) (omega arith)
    ∙ ap (λ t. ok (adjust t)) (xor_words-drop i x bytes (omega arith) h)

-- On a buffer that reaches the stored checksum the loop ends and gives the exclusive or of all 127
-- words before it, with 0 moved to 1 and 2 ^ 32 - 1 moved to 2 ^ 32 - 2.
pub calculate_checksum-eq-xor_words :
    (bytes : Bytes)
    → 508 ≤ length bytes
    → calculate_checksum bytes ≡ ok (adjust (xor_words (take 508 bytes)))
unfolding calculate_checksum
calculate_checksum-eq-xor_words bytes h =
    checksum_loop-eq 127 128 0 0 bytes h (omega arith) (omega arith)
    ∙ ap (λ t. ok (adjust t)) (zero-bit_xor (xor_words (take 508 bytes)))

checksum_loop_stop :
    (f i x : ℕ) (bytes : Bytes)
    → i ≤ 507
    → length bytes < i + 4
    → checksum_loop (suc f) i x bytes ≡ err (buffer "calculate_checksum")
unfolding checksum_loop
checksum_loop_stop f i x bytes h k =
    rw (le→leb i 0x01fb h, get_range_beyond bytes i 4 k, checksum_loop)

checksum_loop_short :
    (n f i x : ℕ) (bytes : Bytes)
    → length bytes < 508
    → i + 4 * n ≡ 508
    → i ≤ length bytes
    → n < f
    → checksum_loop f i x bytes ≡ err (buffer "calculate_checksum")
checksum_loop_short n zero i x bytes h e p enough = absurd (omega arith)
checksum_loop_short zero (suc f) i x bytes h e p enough = absurd (omega arith)
checksum_loop_short (suc n) (suc f) i x bytes h e p enough =
    elim (Bool-cases (leb (i + 4) (length bytes))) [
      | inl fits ↦
          checksum_loop_step f i x bytes (omega arith) (leb→le (i + 4) (length bytes) fits)
          ∙ checksum_loop_short n f (i + 4) (bit_xor x (from_le (take 4 (drop i bytes)))) bytes h
              (omega arith) (leb→le (i + 4) (length bytes) fits) (omega arith)
      | inr beyond ↦ checksum_loop_stop f i x bytes (omega arith) (ground arith)
    ]

-- A buffer that ends before the stored checksum gets the buffer error, whatever it holds.
calculate_checksum_short :
    (bytes : Bytes)
    → length bytes < 508
    → calculate_checksum bytes ≡ err (buffer "calculate_checksum")
unfolding calculate_checksum
calculate_checksum_short bytes h =
    checksum_loop_short 127 128 0 0 bytes h (omega arith) (omega arith) (omega arith)

-- A window of words with one word in front of the rest.
xor_words-append :
    (k : ℕ) (front rest : Bytes)
    → length front ≡ 4 * k
    → xor_words (front ++ rest) ≡ bit_xor (xor_words front) (xor_words rest)
unfolding xor_words
xor_words-append zero [] rest e = sym (zero-bit_xor (xor_words rest))
xor_words-append zero (x ∷ front) rest e = absurd (omega arith)
xor_words-append (suc k) (a ∷ b ∷ c ∷ d ∷ front) rest e =
    ap (bit_xor (from_le (a ∷ b ∷ c ∷ d ∷ []))) (xor_words-append k front rest (omega arith))
    ∙ sym (bit_xor_assoc (from_le (a ∷ b ∷ c ∷ d ∷ [])) (xor_words front) (xor_words rest))
xor_words-append (suc k) [] rest e = absurd (omega arith)
xor_words-append (suc k) (a ∷ []) rest e = absurd (omega arith)
xor_words-append (suc k) (a ∷ b ∷ []) rest e = absurd (omega arith)
xor_words-append (suc k) (a ∷ b ∷ c ∷ []) rest e = absurd (omega arith)

xor_words_word : (w : Bytes) → length w ≡ 4 → xor_words w ≡ from_le w
unfolding xor_words
xor_words_word (a ∷ b ∷ c ∷ d ∷ []) e = bit_xor-zero (from_le (a ∷ b ∷ c ∷ d ∷ []))
xor_words_word [] e = absurd (omega arith)
xor_words_word (a ∷ []) e = absurd (omega arith)
xor_words_word (a ∷ b ∷ []) e = absurd (omega arith)
xor_words_word (a ∷ b ∷ c ∷ []) e = absurd (omega arith)
xor_words_word (a ∷ b ∷ c ∷ d ∷ x ∷ rest) e = absurd (omega arith)

-- An exclusive or can be cancelled on either side.
bit_xor_injective : (x y z : ℕ) → bit_xor x y ≡ bit_xor x z → y ≡ z
bit_xor_injective x y z e =
    sym (bit_xor_cancel_left x y) ∙ ap (bit_xor x) e ∙ bit_xor_cancel_left x z

bit_xor_injective_right : (x y z : ℕ) → bit_xor y x ≡ bit_xor z x → y ≡ z
bit_xor_injective_right x y z e =
    sym (bit_xor_cancel y x) ∙ ap (λ t. bit_xor t x) e ∙ bit_xor_cancel z x

-- Two sums that the adjustment takes to one value.
adjust_collision :
    (x y : ℕ) → adjust x ≡ adjust y → (x ≡ y) ⊎ (adjust x ≡ 1) ⊎ (adjust x ≡ 0xfffffffe)
adjust_collision x y e = ground arith

xor_words_bound : (ws : Bytes) → IsBytes ws → xor_words ws < 2 ^ 32
unfolding xor_words
xor_words_bound (a ∷ b ∷ c ∷ d ∷ rest) h =
    bit_xor-lt 32 (from_le (a ∷ b ∷ c ∷ d ∷ [])) (xor_words rest) (omega arith)
      (xor_words_bound rest h.1.1.1.1)
xor_words_bound [] h = omega arith
xor_words_bound (a ∷ []) h = omega arith
xor_words_bound (a ∷ b ∷ []) h = omega arith
xor_words_bound (a ∷ b ∷ c ∷ []) h = omega arith

-- The checksum of every buffer that has the 508 bytes is a word of 32 bits, and neither of the two
-- values that the format reserves.
pub calculate_checksum_range :
    (bytes : Bytes)
    → IsBytes bytes
    → 508 ≤ length bytes
    → (c : ℕ) × (calculate_checksum bytes ≡ ok c) × (0 < c) × (c < 2 ^ 32 - 1)
calculate_checksum_range bytes h k =
    let bound = xor_words_bound (take 508 bytes) (take-IsBytes 508 bytes h) in
    (
      adjust (xor_words (take 508 bytes)),
      calculate_checksum-eq-xor_words bytes k,
      adjust_pos (xor_words (take 508 bytes)),
      adjust-lt (xor_words (take 508 bytes)) bound,
    )
  where
    adjust_pos : (x : ℕ) → 0 < adjust x
    adjust_pos x = ground arith

    adjust-lt : (x : ℕ) → x < 2 ^ 32 → adjust x < 2 ^ 32 - 1
    adjust-lt x lt = ground arith

-- The words of a header around the word at 4 * k.
xor_words_around :
    (k : ℕ) (front w rest : Bytes)
    → length front ≡ 4 * k
    → length w ≡ 4
    → k < 127
    → xor_words (take 508 (front ++ (w ++ rest)))
      ≡ bit_xor (xor_words front) (bit_xor (from_le w) (xor_words (take (504 - 4 * k) rest)))
xor_words_around k front w rest p q below =
    let n : 508 - length front - length w ≡ 504 - 4 * k = omega arith in
    ap xor_words (
      take-append_right 508 front (w ++ rest) (omega arith)
      ∙ ap (λ t. front ++ t)
          (take-append_right (508 - length front) w rest (omega arith)
            ∙ ap (λ t. w ++ take t rest) n))
    ∙ xor_words-append k front (w ++ take (504 - 4 * k) rest) p
    ∙ ap (bit_xor (xor_words front)) (
        xor_words-append 1 w (take (504 - 4 * k) rest) q
        ∙ ap (λ t. bit_xor t (xor_words (take (504 - 4 * k) rest))) (xor_words_word w q))

-- The checksum shows a change of one header word, whatever the other bytes are, but for the two
-- adjusted values: of two headers that differ in the word at 4 * k alone and have one checksum, the
-- words are the same number, or the checksum is 1 or 2 ^ 32 - 2.
pub calculate_checksum_detects :
    (k : ℕ) (front w w' rest : Bytes)
    → length front ≡ 4 * k
    → length w ≡ 4
    → length w' ≡ 4
    → k < 127
    → 508 ≤ length (front ++ (w ++ rest))
    → calculate_checksum (front ++ (w ++ rest)) ≡ calculate_checksum (front ++ (w' ++ rest))
    → (from_le w ≡ from_le w')
      ⊎ (calculate_checksum (front ++ (w ++ rest)) ≡ ok 1)
      ⊎ (calculate_checksum (front ++ (w ++ rest)) ≡ ok 0xfffffffe)
calculate_checksum_detects k front w w' rest p q q' below long same =
    by_cases (adjust_collision s s' (ok_injective (sym sum ∙ same ∙ sum')))
  where
    s : ℕ
    s = xor_words (take 508 (front ++ (w ++ rest)))

    s' : ℕ
    s' = xor_words (take 508 (front ++ (w' ++ rest)))

    sum : calculate_checksum (front ++ (w ++ rest)) ≡ ok (adjust s)
    sum = calculate_checksum-eq-xor_words (front ++ (w ++ rest)) long

    sum' : calculate_checksum (front ++ (w' ++ rest)) ≡ ok (adjust s')
    sum' = calculate_checksum-eq-xor_words (front ++ (w' ++ rest)) (
        omega (
          arith,
          length-append front (w ++ rest),
          length-append front (w' ++ rest),
          length-append w rest,
          length-append w' rest,
        ))

    ok_injective : {a b : ℕ} → ok a ≡ ok b → a ≡ b
    ok_injective e = cc

    by_cases :
        (s ≡ s') ⊎ (adjust s ≡ 1) ⊎ (adjust s ≡ 0xfffffffe)
        → (from_le w ≡ from_le w')
          ⊎ (calculate_checksum (front ++ (w ++ rest)) ≡ ok 1)
          ⊎ (calculate_checksum (front ++ (w ++ rest)) ≡ ok 0xfffffffe)
    by_cases (inl e) = inl (
        bit_xor_injective_right (xor_words (take (504 - 4 * k) rest)) (from_le w) (from_le w') (
          bit_xor_injective (xor_words front) _ _ (
            sym (xor_words_around k front w rest p q below)
            ∙ e
            ∙ xor_words_around k front w' rest p q' below)))
    by_cases (inr (inl e)) = inr (inl (sum ∙ ap ok e))
    by_cases (inr (inr e)) = inr (inr (sum ∙ ap ok e))
