-- ===== src/Base/Bits.antt =====
-- Laws of `^` and `|` at variables, from the recursion on digits that the native operations
-- stand for.
use Prim.Native.Nat.{
  ℕ, zero, suc, ◌+◌, ◌*◌, ◌/◌, ◌%◌, ◌^◌, ◌≤◌, ◌<◌, max, min, bit_and, bit_and-bitwise, bit_or,
  bit_xor, digits, bitwise, differ, bit_or-bitwise, bit_xor-bitwise,
}
use mathlib.Core.Path.{◌≡◌, refl, ap, ◌∙◌, sym}
use mathlib.Core.Logic.{◌⊎◌, inl, inr}
use native.Mathlib.Nat.{le_refl, pow-suc}
use native.Mathlib.Omega.{arith}

module _ (at_end : ℕ → ℕ) (on_digits : ℕ → ℕ → ℕ) where
  -- A round more than the first number needs changes nothing.
  one_more :
      (rounds a b : ℕ)
      → a ≤ rounds
      → digits at_end on_digits (suc rounds) a b ≡ digits at_end on_digits rounds a b
  one_more zero zero b fits = refl
  one_more (suc rounds) zero b fits = refl
  one_more zero (suc a) b fits = absurd (omega arith)
  one_more (suc rounds) (suc a) b fits =
      ap (λ t. t * 2 + on_digits (suc a % 2) (b % 2))
        (one_more rounds (suc a / 2) (b / 2) (omega arith))

  -- Nor do many rounds more.
  spare :
      (rounds needed a b : ℕ)
      → needed ≤ rounds
      → a ≤ needed
      → digits at_end on_digits rounds a b ≡ digits at_end on_digits needed a b
  spare zero needed a b within fits =
      let none : 0 ≡ needed = omega arith in ap (λ t. digits at_end on_digits t a b) none
  spare (suc rounds) needed a b within fits = elim (last_round within) [
    | inl same ↦ ap (λ t. digits at_end on_digits t a b) (sym same)
    | inr fewer ↦ one_more rounds a b (omega arith) ∙ spare rounds needed a b fewer fits
  ]
    where
      last_round : needed ≤ suc rounds → (needed ≡ suc rounds) ⊎ (needed ≤ rounds)
      last_round h = omega arith

  lowest_digit :
      (a b : ℕ)
      → bitwise at_end on_digits (suc a) b
        ≡ bitwise at_end on_digits (suc a / 2) (b / 2) * 2 + on_digits (suc a % 2) (b % 2)
  lowest_digit a b =
      ap (λ t. t * 2 + on_digits (suc a % 2) (b % 2))
        (spare a (suc a / 2) (suc a / 2) (b / 2) (omega arith) (omega arith))

-- A number without the digits above the lowest, and those digits.
pub bit_or_halves : (a b : ℕ) → bit_or a b ≡ max (a % 2) (b % 2) + 2 * bit_or (a / 2) (b / 2)
bit_or_halves zero b = simp bit_or-bitwise (omega arith)
bit_or_halves (suc a) b =
    let low = lowest_digit (λ y. y) max a b in simp bit_or-bitwise (omega (arith, low))

pub bit_and_halves : (a b : ℕ) → bit_and a b ≡ min (a % 2) (b % 2) + 2 * bit_and (a / 2) (b / 2)
bit_and_halves zero b = simp bit_and-bitwise (omega arith)
bit_and_halves (suc a) b =
    let low = lowest_digit (λ b. zero) min a b in simp bit_and-bitwise (omega (arith, low))

-- The digit that a smaller number does not have.
pub bit_and-below : (k n : ℕ) → n < 2 ^ k → bit_and n (2 ^ k) ≡ 0
bit_and-below zero zero h = refl
bit_and-below zero (suc n) h = absurd (omega arith)
bit_and-below (suc k) n h =
    let half : 2 ^ suc k / 2 ≡ 2 ^ k = omega (arith, pow-suc 2 k) in
    let even : 2 ^ suc k % 2 ≡ 0 = omega (arith, pow-suc 2 k) in
    let rest = bit_and-below k (n / 2) (omega (arith, pow-suc 2 k)) in
    bit_and_halves n (2 ^ suc k) ∙ rw (half, even) (omega (arith, rest))

-- The exclusive or of two binary digits, as arithmetic.
digit_cases : (a : ℕ) → (a % 2 ≡ 0) ⊎ (a % 2 ≡ 1)
digit_cases a = omega arith

differ_digits : (a b : ℕ) → differ (a % 2) (b % 2) ≡ (a % 2 + b % 2) % 2
differ_digits a b = elim (digit_cases a) [
  | inl p ↦ elim (digit_cases b) [ inl q ↦ rw (p, q) | inr q ↦ rw (p, q) ]
  | inr p ↦ elim (digit_cases b) [ inl q ↦ rw (p, q) | inr q ↦ rw (p, q) ]
]

pub bit_xor_halves : (a b : ℕ) → bit_xor a b ≡ bit_xor (a / 2) (b / 2) * 2 + (a % 2 + b % 2) % 2
bit_xor_halves zero b = simp bit_xor-bitwise (omega arith)
bit_xor_halves (suc a) b = simp bit_xor-bitwise (
    lowest_digit (λ y. y) differ a b
    ∙ ap (λ (t : ℕ). bitwise (λ y. y) differ (suc a / 2) (b / 2) * 2 + t) (differ_digits (suc a) b))

bit_xor-zero_fuel : (n a : ℕ) → a ≤ n → bit_xor a 0 ≡ a
bit_xor-zero_fuel n zero h = simp bit_xor-bitwise
bit_xor-zero_fuel zero (suc a) h = absurd (omega arith)
bit_xor-zero_fuel (suc n) (suc a) h =
    omega (arith, bit_xor_halves (suc a) 0, bit_xor-zero_fuel n (suc a / 2) (omega arith))

pub bit_xor-zero : (a : ℕ) → bit_xor a 0 ≡ a
bit_xor-zero a = bit_xor-zero_fuel a a (le_refl a)

pub zero-bit_xor : (b : ℕ) → bit_xor 0 b ≡ b
zero-bit_xor b = simp bit_xor-bitwise

comm_fuel : (n a b : ℕ) → a ≤ n → bit_xor a b ≡ bit_xor b a
comm_fuel n zero b h = zero-bit_xor b ∙ sym (bit_xor-zero b)
comm_fuel zero (suc a) b h = absurd (omega arith)
comm_fuel (suc n) (suc a) b h = omega (
  arith,
  bit_xor_halves (suc a) b,
  bit_xor_halves b (suc a),
  comm_fuel n (suc a / 2) (b / 2) (omega arith),
)

pub bit_xor_comm : (a b : ℕ) → bit_xor a b ≡ bit_xor b a
bit_xor_comm a b = comm_fuel a a b (le_refl a)

-- Half and lowest digit of an exclusive or.
half-bit_xor : (a b : ℕ) → bit_xor a b / 2 ≡ bit_xor (a / 2) (b / 2)
half-bit_xor a b = omega (arith, bit_xor_halves a b)

low-bit_xor : (a b : ℕ) → bit_xor a b % 2 ≡ (a % 2 + b % 2) % 2
low-bit_xor a b = omega (arith, bit_xor_halves a b)

assoc_fuel : (n a b c : ℕ) → a ≤ n → bit_xor (bit_xor a b) c ≡ bit_xor a (bit_xor b c)
assoc_fuel n zero b c h = rw (zero-bit_xor b, zero-bit_xor (bit_xor b c))
assoc_fuel zero (suc a) b c h = absurd (omega arith)
assoc_fuel (suc n) (suc a) b c h = omega (
  arith,
  bit_xor_halves (bit_xor (suc a) b) c,
  bit_xor_halves (suc a) (bit_xor b c),
  ap (λ (t : ℕ). bit_xor t (c / 2)) (half-bit_xor (suc a) b),
  ap (λ (t : ℕ). bit_xor (suc a / 2) t) (half-bit_xor b c),
  low-bit_xor (suc a) b,
  low-bit_xor b c,
  assoc_fuel n (suc a / 2) (b / 2) (c / 2) (omega arith),
)

pub bit_xor_assoc : (a b c : ℕ) → bit_xor (bit_xor a b) c ≡ bit_xor a (bit_xor b c)
bit_xor_assoc a b c = assoc_fuel a a b c (le_refl a)

self_fuel : (n a : ℕ) → a ≤ n → bit_xor a a ≡ 0
self_fuel n zero h = zero-bit_xor 0
self_fuel zero (suc a) h = absurd (omega arith)
self_fuel (suc n) (suc a) h =
    omega (arith, bit_xor_halves (suc a) (suc a), self_fuel n (suc a / 2) (omega arith))

pub bit_xor_self : (a : ℕ) → bit_xor a a ≡ 0
bit_xor_self a = self_fuel a a (le_refl a)

-- An exclusive or is undone by a second one with the same number.
pub bit_xor_cancel : (a b : ℕ) → bit_xor (bit_xor a b) b ≡ a
bit_xor_cancel a b = rw (bit_xor_assoc a b b, bit_xor_self b) (bit_xor-zero a)

pub bit_xor_cancel_left : (a b : ℕ) → bit_xor a (bit_xor a b) ≡ b
bit_xor_cancel_left a b = rw (← bit_xor_assoc a a b, bit_xor_self a) (zero-bit_xor b)

-- The result fits the width of its arguments.
pub bit_xor-lt : (k a b : ℕ) → a < 2 ^ k → b < 2 ^ k → bit_xor a b < 2 ^ k
bit_xor-lt zero zero b p q = rw (zero-bit_xor b) q
bit_xor-lt zero (suc a) b p q = absurd (omega arith)
bit_xor-lt (suc k) a b p q = omega (
  arith,
  pow-suc 2 k,
  bit_xor_halves a b,
  bit_xor-lt k (a / 2) (b / 2) (omega (arith, pow-suc 2 k)) (omega (arith, pow-suc 2 k)),
)

bit_or-zero_fuel : (n a : ℕ) → a ≤ n → bit_or a 0 ≡ a
bit_or-zero_fuel n zero h = simp bit_or-bitwise
bit_or-zero_fuel zero (suc a) h = absurd (omega arith)
bit_or-zero_fuel (suc n) (suc a) h =
    omega (arith, bit_or_halves (suc a) 0, bit_or-zero_fuel n (suc a / 2) (omega arith))

shift_by_one : (high k : ℕ) → high * 2 ^ suc k ≡ high * 2 ^ k + high * 2 ^ k
shift_by_one high k = omega (arith, ap (λ (t : ℕ). high * t) (pow-suc 2 k))

-- A shifted number and one that fits below it share no digit.
pub bit_or_fields : (k high low : ℕ) → low < 2 ^ k → bit_or (high * 2 ^ k) low ≡ low + high * 2 ^ k
bit_or_fields zero high low fits = ground (arith, bit_or-zero_fuel high high)
bit_or_fields (suc k) high low fits =
    let shifted = shift_by_one high k in
    let rest = bit_or_fields k high (low / 2) (omega (arith, pow-suc 2 k)) in
    ground (arith, shifted, rest, bit_or_halves (high * 2 ^ suc k) low)

pub bit_or-lt : (k a b : ℕ) → a < 2 ^ k → b < 2 ^ k → bit_or a b < 2 ^ k
bit_or-lt zero zero b p q = simp bit_or-bitwise q
bit_or-lt zero (suc a) b p q = absurd (omega arith)
bit_or-lt (suc k) a b p q = omega (
  arith,
  pow-suc 2 k,
  bit_or_halves a b,
  bit_or-lt k (a / 2) (b / 2) (omega (arith, pow-suc 2 k)) (omega (arith, pow-suc 2 k)),
)
