-- ===== src/Base/Lists.antt =====
-- Lists measured and indexed by native numbers, under the library's names, and slices as Rust
-- takes them.
use Prim.Native.Nat.{ℕ, zero, suc, ◌+◌, ◌-◌, ◌≤◌, min}
use mathlib.Core.Path.{◌≡◌, refl, ap, ◌∙◌}
use mathlib.Core.List.{List, [], ◌∷◌, ◌++◌}
use mathlib.Core.Bool.{◌&&◌}
use mathlib.Core.Option.{Option, none, some}
use native.Mathlib.Omega.{arith}
use notatin.Base.Tests.{leb, if◌then◌else◌, le→leb, lt→leb_false}

module _ {ℓ} {A : Type ℓ} where
  abbrev pub length : List A → ℕ
  length [] = 0
  length (x ∷ xs) = suc (length xs)

  abbrev pub get_elem? : List A → ℕ → Option A
  get_elem? [] i = none
  get_elem? (x ∷ xs) zero = some x
  get_elem? (x ∷ xs) (suc i) = get_elem? xs i

  abbrev pub get_or : List A → ℕ → A → A
  get_or [] i d = d
  get_or (x ∷ xs) zero d = x
  get_or (x ∷ xs) (suc i) d = get_or xs i d

  abbrev pub take : ℕ → List A → List A
  take zero xs = []
  take (suc n) [] = []
  take (suc n) (x ∷ xs) = x ∷ take n xs

  abbrev pub drop : ℕ → List A → List A
  drop zero xs = xs
  drop (suc n) [] = []
  drop (suc n) (x ∷ xs) = drop n xs

  abbrev pub replicate : ℕ → A → List A
  replicate zero a = []
  replicate (suc n) a = a ∷ replicate n a

module _ {ℓ} {A : Type ℓ} where
  pub length-append : (xs ys : List A) → length (xs ++ ys) ≡ length xs + length ys
  length-append [] ys = omega arith
  length-append (x ∷ xs) ys = omega (arith, length-append xs ys)

  pub length-take : (n : ℕ) (xs : List A) → length (take n xs) ≡ min n (length xs)
  length-take zero xs = omega arith
  length-take (suc n) [] = omega arith
  length-take (suc n) (x ∷ xs) = omega (arith, length-take n xs)

  pub length-drop : (n : ℕ) (xs : List A) → length (drop n xs) ≡ length xs - n
  length-drop zero xs = omega arith
  length-drop (suc n) [] = omega arith
  length-drop (suc n) (x ∷ xs) = omega (arith, length-drop n xs)

  pub length-replicate : (n : ℕ) (a : A) → length (replicate n a) ≡ n
  length-replicate zero a = refl
  length-replicate (suc n) a = ap suc (length-replicate n a)

  pub take-append-drop : (n : ℕ) (xs : List A) → take n xs ++ drop n xs ≡ xs
  take-append-drop zero xs = refl
  take-append-drop (suc n) [] = refl
  take-append-drop (suc n) (x ∷ xs) = ap (λ t. x ∷ t) (take-append-drop n xs)

  pub drop-drop : (n m k : ℕ) (xs : List A) → m + n ≡ k → drop n (drop m xs) ≡ drop k xs
  drop-drop n zero k xs e = let e' : n ≡ k = omega arith in ap (λ t. drop t xs) e'
  drop-drop n (suc m) zero xs e = absurd (omega arith)
  drop-drop zero (suc m) (suc k) [] e = refl
  drop-drop (suc n) (suc m) (suc k) [] e = refl
  drop-drop n (suc m) (suc k) (x ∷ xs) e = drop-drop n m k xs (omega arith)

  pub take-append_left : (n : ℕ) (xs ys : List A) → n ≤ length xs → take n (xs ++ ys) ≡ take n xs
  take-append_left zero xs ys h = refl
  take-append_left (suc n) [] ys h = absurd (omega arith)
  take-append_left (suc n) (x ∷ xs) ys h = ap (λ t. x ∷ t) (take-append_left n xs ys (omega arith))

  pub take-append_right :
      (n : ℕ) (xs ys : List A) → length xs ≤ n → take n (xs ++ ys) ≡ xs ++ take (n - length xs) ys
  take-append_right n [] ys h = let e : n ≡ n - 0 = omega arith in ap (λ t. take t ys) e
  take-append_right zero (x ∷ xs) ys h = absurd (omega arith)
  take-append_right (suc n) (x ∷ xs) ys h =
      let e : n - length xs ≡ suc n - suc (length xs) = omega arith in
      ap (λ t. x ∷ t) (take-append_right n xs ys (omega arith) ∙ ap (λ t. xs ++ take t ys) e)

  pub take_all : (n : ℕ) (xs : List A) → length xs ≤ n → take n xs ≡ xs
  take_all zero [] h = refl
  take_all zero (x ∷ xs) h = absurd (omega arith)
  take_all (suc n) [] h = refl
  take_all (suc n) (x ∷ xs) h = ap (λ t. x ∷ t) (take_all n xs (omega arith))

  pub drop_all : (n : ℕ) (xs : List A) → length xs ≤ n → drop n xs ≡ []
  drop_all zero [] h = refl
  drop_all zero (x ∷ xs) h = absurd (omega arith)
  drop_all (suc n) [] h = refl
  drop_all (suc n) (x ∷ xs) h = drop_all n xs (omega arith)

  pub drop-append_left :
      (n : ℕ) (xs ys : List A) → n ≤ length xs → drop n (xs ++ ys) ≡ drop n xs ++ ys
  drop-append_left zero xs ys h = refl
  drop-append_left (suc n) [] ys h = absurd (omega arith)
  drop-append_left (suc n) (x ∷ xs) ys h = drop-append_left n xs ys (omega arith)

  pub drop-append_right :
      (n : ℕ) (xs ys : List A) → length xs ≤ n → drop n (xs ++ ys) ≡ drop (n - length xs) ys
  drop-append_right n [] ys h = let e : n ≡ n - 0 = omega arith in ap (λ t. drop t ys) e
  drop-append_right zero (x ∷ xs) ys h = absurd (omega arith)
  drop-append_right (suc n) (x ∷ xs) ys h =
      let e : n - length xs ≡ suc n - suc (length xs) = omega arith in
      drop-append_right n xs ys (omega arith) ∙ ap (λ t. drop t ys) e

  -- A window inside a prefix is the same window of the whole.
  pub take-drop-take :
      (n m k : ℕ) (xs : List A) → m + n ≤ k → take n (drop m (take k xs)) ≡ take n (drop m xs)
  take-drop-take zero m k xs h = refl
  take-drop-take (suc n) zero zero xs h = absurd (omega arith)
  take-drop-take (suc n) zero (suc k) [] h = refl
  take-drop-take (suc n) zero (suc k) (x ∷ xs) h =
      ap (λ t. x ∷ t) (take-drop-take n zero k xs (omega arith))
  take-drop-take (suc n) (suc m) zero xs h = absurd (omega arith)
  take-drop-take (suc n) (suc m) (suc k) [] h = refl
  take-drop-take (suc n) (suc m) (suc k) (x ∷ xs) h = take-drop-take (suc n) m k xs (omega arith)

  pub get_or-drop :
      (d : A) (m i k : ℕ) (xs : List A) → m + i ≡ k → get_or (drop m xs) i d ≡ get_or xs k d
  get_or-drop d zero i k xs e = let e' : i ≡ k = omega arith in ap (λ t. get_or xs t d) e'
  get_or-drop d (suc m) i zero xs e = absurd (omega arith)
  get_or-drop d (suc m) i (suc k) [] e = refl
  get_or-drop d (suc m) i (suc k) (x ∷ xs) e = get_or-drop d m i k xs (omega arith)

-- `slice.get(a..b)`: nothing if the range is reversed or ends past the end.
abbrev pub get_range {ℓ} : {A : Type ℓ} → List A → ℕ → ℕ → Option (List A)
get_range xs a b = if leb a b && leb b (length xs) then some (take (b - a) (drop a xs)) else none

-- `slice.get(a..)`.
abbrev pub get_from {ℓ} : {A : Type ℓ} → List A → ℕ → Option (List A)
get_from xs a = if leb a (length xs) then some (drop a xs) else none

-- The bytes of `xs` with `ys` written over them from `a` on.
abbrev pub write_at {ℓ} : {A : Type ℓ} → List A → ℕ → List A → List A
write_at xs a ys = take a xs ++ (ys ++ drop (a + length ys) xs)

pub get_range_within :
    {A : Type 0} (bytes : List A) (i n : ℕ)
    → i + n ≤ length bytes
    → get_range bytes i (i + n) ≡ some (take n (drop i bytes))
get_range_within bytes i n h =
    let e : i + n - i ≡ n = omega arith in
    rw (le→leb i (i + n) (omega arith), le→leb (i + n) (length bytes) h, e)

pub get_range_beyond :
    {A : Type 0} (bytes : List A) (i n : ℕ)
    → suc (length bytes) ≤ i + n
    → get_range bytes i (i + n) ≡ none
get_range_beyond bytes i n h =
    rw (le→leb i (i + n) (omega arith), lt→leb_false (i + n) (length bytes) h)
