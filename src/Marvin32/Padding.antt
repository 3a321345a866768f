-- ===== src/Marvin32/Padding.antt =====
-- The hash as a fold over the words of a padded message.
use notatin.Base.{
  ℕ, zero, suc, ◌+◌, ◌*◌, ◌/◌, ◌^◌, ◌≤◌, ◌<◌, ◌≡◌, refl, ap, sym, ◌∙◌, bit_and, bit_or, List, [],
  ◌∷◌, Bytes, IsBytes, length, take, drop, from_le, get_elem?, get_range, get_range_within, lt→ltb,
  arith, some, drop-drop, length-drop,
}
use notatin.Base.Bits.{bit_or_fields}
use notatin.Outcome.{ok, ◌>>=◌}
use notatin.Marvin32.{block, absorb, word_loop, last_word, marvin32}

-- A message, one byte 0x80 and zeros up to the end of a word, as words.
unfoldable pub padded_words : Bytes → List ℕ
padded_words [] = 0x80 ∷ []
padded_words (a ∷ []) = from_le (a ∷ 0x80 ∷ []) ∷ []
padded_words (a ∷ b ∷ []) = from_le (a ∷ b ∷ 0x80 ∷ []) ∷ []
padded_words (a ∷ b ∷ c ∷ []) = from_le (a ∷ b ∷ c ∷ 0x80 ∷ []) ∷ []
padded_words (a ∷ b ∷ c ∷ d ∷ rest) = from_le (a ∷ b ∷ c ∷ d ∷ []) ∷ padded_words rest

unfoldable pub absorb_all : ℕ × ℕ → List ℕ → ℕ × ℕ
absorb_all s [] = s
absorb_all s (w ∷ ws) = absorb_all (absorb s w) ws

-- The hash: every word is taken in, and the last state is mixed once more.
unfoldable pub padded_hash : ℕ → Bytes → ℕ
unfolding absorb_all padded_words
padded_hash seed message =
    let t = block (absorb_all (bit_and seed 0xffffffff, seed / 2 ^ 32) (padded_words message)) in
    bit_or t.0 (t.1 * 2 ^ 32)

get_elem?-drop :
    (i j k : ℕ) (bytes : Bytes) → i + j ≡ k → get_elem? bytes k ≡ get_elem? (drop i bytes) j
get_elem?-drop zero j k bytes e = let e' : k ≡ j = omega arith in ap (get_elem? bytes) e'
get_elem?-drop (suc i) j zero bytes e = absurd (omega arith)
get_elem?-drop (suc i) j (suc k) [] e = refl
get_elem?-drop (suc i) j (suc k) (x ∷ bytes) e = get_elem?-drop i j k bytes (omega arith)

module _ (i : ℕ) (bytes rest : Bytes) (here : drop i bytes ≡ rest) where
  byte_here : (j k : ℕ) → i + j ≡ k → get_elem? bytes k ≡ get_elem? rest j
  byte_here j k e = get_elem?-drop i j k bytes e ∙ ap (λ t. get_elem? t j) here

  range_here :
      (n : ℕ) → suc n ≤ length rest → get_range bytes i (i + suc n) ≡ some (take (suc n) rest)
  range_here n h =
      get_range_within bytes i (suc n) (omega (arith, length-drop i bytes, ap length here))
      ∙ ap (λ t. some (take (suc n) t)) here

three_fields :
    (a b c : ℕ)
    → a < 256
    → b < 256
    → c < 256
    → a + 256 * (b + 256 * (c + 32768)) ≡ bit_or (bit_or 2147483648 (c * 65536)) (a + 256 * (b + 0))
three_fields a b c p q r =
    let high : bit_or 2147483648 (c * 65536) ≡ (32768 + c) * 2 ^ 16 =
      omega (arith, bit_or_fields 31 1 (c * 2 ^ 16) (omega arith)) in
    sym (
      ap (λ t. bit_or t (a + 256 * (b + 0))) high
      ∙ bit_or_fields 16 (32768 + c) (a + 256 * (b + 0)) (omega arith)
      ∙ omega arith)

-- The last word at the end of a message.
last_word_padded :
    (i : ℕ) (bytes rest : Bytes)
    → drop i bytes ≡ rest
    → IsBytes rest
    → length rest ≤ 3
    → (w : ℕ) × (last_word (length rest) i bytes ≡ ok w) × (padded_words rest ≡ w ∷ [])
unfolding last_word padded_words
last_word_padded i bytes [] e h k = (0x80, refl, refl)
last_word_padded i bytes (a ∷ []) e h k = (
  bit_or 0x8000 a,
  rw (byte_here i bytes (a ∷ []) e 0 i (omega arith), ◌>>=◌, last_word),
  ap (λ t. t ∷ []) (omega (arith, bit_or_fields 15 1 a (omega arith))),
)
last_word_padded i bytes (a ∷ b ∷ []) e h k = (
  bit_or 0x800000 (from_le (a ∷ b ∷ [])),
  rw (range_here i bytes (a ∷ b ∷ []) e 1 (omega arith), ◌>>=◌, last_word),
  ap (λ t. t ∷ []) (omega (arith, bit_or_fields 23 1 (from_le (a ∷ b ∷ [])) (omega arith))),
)
last_word_padded i bytes (a ∷ b ∷ c ∷ []) e h k = (
  bit_or (bit_or 0x80000000 (c * 2 ^ 16)) (from_le (a ∷ b ∷ [])),
  rw (
    byte_here i bytes (a ∷ b ∷ c ∷ []) e 2 (i + 2) refl,
    range_here i bytes (a ∷ b ∷ c ∷ []) e 1 (omega arith),
    ◌>>=◌,
    last_word,
  ),
  ap (λ t. t ∷ []) (three_fields a b c h.0 h.1.0 h.1.1.0),
)
last_word_padded i bytes (a ∷ b ∷ c ∷ d ∷ rest) e h k = absurd (omega arith)

-- A loop that has no whole word left.
module _ (i : ℕ) (s : ℕ × ℕ) (bytes rest : Bytes) where
  ended :
      drop i bytes ≡ rest
      → IsBytes rest
      → length rest ≤ 3
      → (r : (ℕ × ℕ) × ℕ × ℕ) × (w : ℕ) × (ok (s, i, length rest) ≡ ok r)
        × (last_word r.2 r.1 bytes ≡ ok w)
        × (absorb r.0 w ≡ absorb_all s (padded_words rest))
  unfolding absorb_all
  ended e h k =
      let (w, p, q) = last_word_padded i bytes rest e h k in
      ((s, i, length rest), w, refl, p, ap (absorb_all s) (sym q))

-- From any index on, the rest of the loop and the last word take in the padded words.
from_index :
    (fuel i : ℕ) (s : ℕ × ℕ) (bytes rest : Bytes)
    → drop i bytes ≡ rest
    → IsBytes rest
    → length rest < fuel
    → (r : (ℕ × ℕ) × ℕ × ℕ) × (w : ℕ) × (word_loop fuel s i (length rest) bytes ≡ ok r)
      × (last_word r.2 r.1 bytes ≡ ok w)
      × (absorb r.0 w ≡ absorb_all s (padded_words rest))
unfolding word_loop absorb_all padded_words
from_index zero i s bytes rest e h enough = absurd (omega arith)
from_index (suc fuel) i s bytes (a ∷ b ∷ c ∷ d ∷ rest) e h enough =
    let (r, w, p, q, t) =
      from_index fuel (i + 4) (absorb s (from_le (a ∷ b ∷ c ∷ d ∷ []))) bytes rest
        (sym (drop-drop 4 i (i + 4) bytes refl) ∙ ap (drop 4) e) h.1.1.1.1 (omega arith) in
    (
      r,
      w,
      rw
          (
            lt→ltb 3 (length (a ∷ b ∷ c ∷ d ∷ rest)) (omega arith),
            range_here i bytes (a ∷ b ∷ c ∷ d ∷ rest) e 3 (omega arith),
            ◌>>=◌,
            word_loop,
          )
          (ap (λ n. word_loop fuel (absorb s (from_le (a ∷ b ∷ c ∷ d ∷ []))) (i + 4) n bytes)
              (omega arith)
            ∙ p),
      q,
      t,
    )
from_index (suc fuel) i s bytes [] e h enough = ended i s bytes [] e h (omega arith)
from_index (suc fuel) i s bytes (a ∷ []) e h enough = ended i s bytes (a ∷ []) e h (omega arith)
from_index (suc fuel) i s bytes (a ∷ b ∷ []) e h enough =
    ended i s bytes (a ∷ b ∷ []) e h (omega arith)
from_index (suc fuel) i s bytes (a ∷ b ∷ c ∷ []) e h enough =
    ended i s bytes (a ∷ b ∷ c ∷ []) e h (omega arith)

-- On a message of bytes, given with its length, the hash is computed without a panic, and it is the
-- fold over the words of the padded message, mixed once more.
pub marvin32-eq-padded_hash :
    (seed : ℕ) (message : Bytes)
    → IsBytes message
    → marvin32 seed message (length message) ≡ ok (padded_hash seed message)
unfolding marvin32 padded_hash
marvin32-eq-padded_hash seed message h =
    let (r, w, p, q, t) =
      from_index (suc (length message)) 0 (bit_and seed 0xffffffff, seed / 2 ^ 32) message message
        refl h (omega arith) in
    rw (p, q, ◌>>=◌) (ap (λ u. ok (bit_or (block u).0 ((block u).1 * 2 ^ 32))) t)
