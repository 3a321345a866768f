-- ===== src/Base/Words.antt =====
-- Bytes and machine words: a byte is a number below 256, a word is a number with its wrap-around
-- written out, and a signed word is the integer that its bit pattern stands for.
use Prim.Native.Nat.{ℕ, zero, suc, ◌+◌, ◌-◌, ◌*◌, ◌/◌, ◌%◌, ◌^◌, ◌<◌}
use mathlib.Core.Path.{◌≡◌, refl, ap}
use mathlib.Core.List.{List, [], ◌∷◌, ◌++◌}
use native.Mathlib.Omega.{arith}
use notatin.Base.Tests.{ltb, if◌then◌else◌}
use notatin.Base.Lists.{length, take, drop}

abbrev pub Bytes : Type 0
Bytes = List ℕ

-- Every byte is a byte.
abbrev pub IsBytes : Bytes → Type 0
IsBytes [] = Unit
IsBytes (b ∷ bs) = (b < 256) × IsBytes bs

-- `from_le_bytes`, at any width.
abbrev pub from_le : Bytes → ℕ
from_le [] = 0
from_le (b ∷ bs) = b + 256 * from_le bs

-- `to_le_bytes` of a word of `n` bytes.
abbrev pub to_le : ℕ → ℕ → Bytes
to_le zero w = []
to_le (suc n) w = w % 256 ∷ to_le n (w / 256)

pub length-to_le : (n w : ℕ) → length (to_le n w) ≡ n
length-to_le zero w = refl
length-to_le (suc n) w = ap suc (length-to_le n (w / 256))

pub to_le-IsBytes : (n w : ℕ) → IsBytes (to_le n w)
to_le-IsBytes zero w = tt
to_le-IsBytes (suc n) w = (omega arith, to_le-IsBytes n (w / 256))

-- `n` bytes hold a word of `n` bytes.
pub from_le-to_le_four : (w : ℕ) → w < 2 ^ 32 → from_le (to_le 4 w) ≡ w
from_le-to_le_four w h = omega arith

pub from_le_four_lt : (bs : Bytes) → IsBytes bs → length bs ≡ 4 → from_le bs < 2 ^ 32
from_le_four_lt (a ∷ b ∷ c ∷ d ∷ []) h e = omega arith
from_le_four_lt bs h e = absurd (omega arith)

pub take-IsBytes : (n : ℕ) (bs : Bytes) → IsBytes bs → IsBytes (take n bs)
take-IsBytes zero bs h = tt
take-IsBytes (suc n) [] h = tt
take-IsBytes (suc n) (b ∷ bs) h = (h.0, take-IsBytes n bs h.1)

pub drop-IsBytes : (n : ℕ) (bs : Bytes) → IsBytes bs → IsBytes (drop n bs)
drop-IsBytes zero bs h = h
drop-IsBytes (suc n) [] h = tt
drop-IsBytes (suc n) (b ∷ bs) h = drop-IsBytes n bs h.1

pub append-IsBytes : (xs ys : Bytes) → IsBytes xs → IsBytes ys → IsBytes (xs ++ ys)
append-IsBytes [] ys h k = k
append-IsBytes (x ∷ xs) ys h k = (h.0, append-IsBytes xs ys h.1 k)

-- The word of `n` bytes at offset `k`.
abbrev pub word_at : ℕ → Bytes → ℕ → ℕ
word_at n bs k = from_le (take n (drop k bs))

-- `negsuc n` is -(n + 1).
pub data ℤ : Type 0 where
  pos : ℕ → ℤ
  negsuc : ℕ → ℤ

-- The integer that a bit pattern of 32 bits stands for, and `i32::unsigned_abs`.
abbrev pub signed32 : ℕ → ℤ
signed32 w = if ltb w (2 ^ 31) then ℤ.pos w else ℤ.negsuc (2 ^ 32 - w - 1)

abbrev pub unsigned_abs : ℤ → ℕ
unsigned_abs (ℤ.pos n) = n
unsigned_abs (ℤ.negsuc n) = suc n
