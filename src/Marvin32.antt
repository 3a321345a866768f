-- ===== src/Marvin32.antt =====
-- src/marvin32.rs: the hash of the entries of a transaction log. A `u32` is a number below 2 ^ 32,
-- with the wrap-around of `wrapping_add` and `rotate_left` written out.
pub mod Padding
pub mod Tests
use notatin.Base.{
  ℕ, zero, suc, ◌+◌, ◌-◌, ◌*◌, ◌/◌, ◌%◌, ◌^◌, bit_and, bit_or, bit_xor, true, false, List, Bytes,
  get_elem?, get_range, from_le, ltb,
}
use notatin.Outcome.{Outcome, ok, panic, no_fuel, expect, ◌>>=◌}

-- `u32::rotate_left`, for a count between 1 and 31.
unfoldable pub rotate_left : ℕ → ℕ → ℕ
rotate_left x count = bit_or (x * 2 ^ count % 2 ^ 32) (x / 2 ^ (32 - count))

abbrev pub wrapping_add : ℕ → ℕ → ℕ
wrapping_add x y = (x + y) % 2 ^ 32

-- The macro `BLOCK!` on the two halves of the state.
unfoldable pub block : ℕ × ℕ → ℕ × ℕ
unfolding rotate_left
block (a, b) =
    let b1 = bit_xor b a in
    let a1 = wrapping_add (rotate_left a 20) b1 in
    let b2 = bit_xor (rotate_left b1 9) a1 in
    let a2 = wrapping_add (rotate_left a1 27) b2 in (a2, rotate_left b2 19)

-- The word that one round takes in.
unfoldable pub absorb : ℕ × ℕ → ℕ → ℕ × ℕ
unfolding block
absorb s w = block (wrapping_add s.0 w, s.1)

-- The loop over whole words: the state, the index and the number of bytes that are left.
unfoldable pub word_loop : ℕ → ℕ × ℕ → ℕ → ℕ → Bytes → Outcome ((ℕ × ℕ) × ℕ × ℕ)
unfolding absorb
word_loop zero s i dlen bytes = no_fuel
word_loop (suc fuel) s i dlen bytes = elim (ltb 3 dlen) [
  | false ↦ ok (s, i, dlen)
  | true ↦ expect (get_range bytes i (i + 4)) >>= λ word.
      word_loop fuel (absorb s (from_le word)) (i + 4) (dlen - 4) bytes
]

-- The last word: the bytes that are left, and a one bit behind them.
unfoldable pub last_word : ℕ → ℕ → Bytes → Outcome ℕ
last_word zero i bytes = ok 0x80
last_word (suc zero) i bytes = do byte ← expect (get_elem? bytes i); ok (bit_or 0x8000 byte)
last_word (suc (suc zero)) i bytes = do
  half ← expect (get_range bytes i (i + 2))
  ok (bit_or 0x800000 (from_le half))
last_word (suc (suc (suc zero))) i bytes = do
  byte ← expect (get_elem? bytes (i + 2))
  half ← expect (get_range bytes i (i + 2))
  ok (bit_or (bit_or 0x80000000 (byte * 2 ^ 16)) (from_le half))
last_word _ i bytes = panic

unfoldable pub marvin32 : ℕ → Bytes → ℕ → Outcome ℕ
unfolding word_loop last_word absorb block
marvin32 seed bytes dlen = do
  (s, i, left) ← word_loop (suc dlen) (bit_and seed 0xffffffff, seed / 2 ^ 32) 0 dlen bytes
  w ← last_word left i bytes
  let t = block (absorb s w)
  ok (bit_or t.0 (t.1 * 2 ^ 32))
