-- ===== src/Base/Writes.antt =====
-- What a write of some bytes over a buffer changes, and what it leaves.
use Prim.Native.Nat.{ℕ, ◌+◌, ◌-◌, ◌≤◌, ◌<◌, ◌^◌}
use mathlib.Core.Path.{◌≡◌, ap, sym, ◌∙◌}
use mathlib.Core.Logic.{◌⊎◌, inl, inr}
use mathlib.Core.List.{List, ◌++◌}
use native.Mathlib.Omega.{arith}
use notatin.Base.Lists.{
  length, take, drop, write_at, length-append, length-take, length-drop, drop-drop,
  take-append_left, drop-append_right, take_all, take-drop-take,
}
use notatin.Base.Words.{
  Bytes, IsBytes, word_at, to_le, from_le, from_le-to_le_four, take-IsBytes, drop-IsBytes,
  append-IsBytes,
}

module _ {ℓ} {A : Type ℓ} (xs : List A) (k : ℕ) (ys : List A)
    (fits : k + length ys ≤ length xs) where
  pub length-write_at : length (write_at xs k ys) ≡ length xs
  length-write_at = omega (
    arith,
    length-append (take k xs) (ys ++ drop (k + length ys) xs),
    length-append ys (drop (k + length ys) xs),
    length-take k xs,
    length-drop (k + length ys) xs,
  )

  front : length (take k xs) ≡ k
  front = omega (arith, length-take k xs)

  -- Everything before the write.
  pub take-write_at : (n : ℕ) → n ≤ k → take n (write_at xs k ys) ≡ take n xs
  take-write_at n h =
      take-append_left n (take k xs) (ys ++ drop (k + length ys) xs) (omega (arith, front))
      ∙ take-drop-take n 0 k xs (omega arith)

  drop-write_at : drop k (write_at xs k ys) ≡ ys ++ drop (k + length ys) xs
  drop-write_at =
      drop-append_right k (take k xs) (ys ++ drop (k + length ys) xs) (omega (arith, front))
      ∙ let e : k - length (take k xs) ≡ 0 = omega (arith, front) in
        ap (λ t. drop t (ys ++ drop (k + length ys) xs)) e

  -- The write itself.
  pub take-drop-write_at : take (length ys) (drop k (write_at xs k ys)) ≡ ys
  take-drop-write_at =
      ap (take (length ys)) drop-write_at
      ∙ take-append_left (length ys) ys (drop (k + length ys) xs) (omega arith)
      ∙ take_all (length ys) ys (omega arith)

  -- Everything behind the write.
  pub drop-write_at_behind : (n : ℕ) → k + length ys ≤ n → drop n (write_at xs k ys) ≡ drop n xs
  drop-write_at_behind n h =
      sym (drop-drop (n - k) k n (write_at xs k ys) (omega arith))
      ∙ ap (drop (n - k)) drop-write_at
      ∙ drop-append_right (n - k) ys (drop (k + length ys) xs) (omega arith)
      ∙ drop-drop (n - k - length ys) (k + length ys) n xs (omega arith)

  -- A window that the write does not meet.
  pub window-write_at :
      (n m : ℕ)
      → (m + n ≤ k) ⊎ (k + length ys ≤ m)
      → take n (drop m (write_at xs k ys)) ≡ take n (drop m xs)
  window-write_at n m (inl h) =
      sym (take-drop-take n m k (write_at xs k ys) h)
      ∙ ap (λ t. take n (drop m t)) (take-write_at k (omega arith))
      ∙ take-drop-take n m k xs h
  window-write_at n m (inr h) = ap (take n) (drop-write_at_behind m h)

pub write_at-IsBytes :
    (xs : Bytes) (k : ℕ) (ys : Bytes) → IsBytes xs → IsBytes ys → IsBytes (write_at xs k ys)
write_at-IsBytes xs k ys h p =
    append-IsBytes (take k xs) (ys ++ drop (k + length ys) xs) (take-IsBytes k xs h)
      (append-IsBytes ys (drop (k + length ys) xs) p (drop-IsBytes (k + length ys) xs h))

-- A word of four bytes, written and read.
pub word_at-write_at :
    (xs : Bytes) (k w : ℕ)
    → w < 2 ^ 32
    → k + 4 ≤ length xs
    → word_at 4 (write_at xs k (to_le 4 w)) k ≡ w
word_at-write_at xs k w h fits =
    ap from_le (take-drop-write_at xs k (to_le 4 w) fits) ∙ from_le-to_le_four w h

-- A word that the write does not meet.
pub word_at-write_at_kept :
    (xs : Bytes) (k w m : ℕ)
    → k + 4 ≤ length xs
    → (m + 4 ≤ k) ⊎ (k + 4 ≤ m)
    → word_at 4 (write_at xs k (to_le 4 w)) m ≡ word_at 4 xs m
word_at-write_at_kept xs k w m fits apart =
    ap from_le (window-write_at xs k (to_le 4 w) fits 4 m apart)
