-- ===== src/Base/Slices.antt =====
-- Slices of a list whose content is known from a position on.
use Prim.Native.Nat.{ℕ, ◌+◌, ◌-◌, ◌≤◌}
use mathlib.Core.Path.{◌≡◌, refl, ap, ◌∙◌, sym}
use mathlib.Core.Logic.{inl, inr}
use mathlib.Core.List.{List, [], ◌∷◌, ◌++◌}
use mathlib.Core.Option.{some}
use native.Mathlib.Omega.{arith}
use notatin.Base.Tests.{leb, le→leb, leb→le, Bool-cases}
use notatin.Base.Lists.{
  length, length-append, length-drop, take, drop, drop-drop, get_from, get_range, get_range_within,
}

module _ {A : Type 0} where
  some_injective : {x y : A} → some x ≡ some y → x ≡ y
  some_injective e = cc

  get_from-eq-some :
      (xs : List A) (k : ℕ) (ys : List A)
      → get_from xs k ≡ some ys
      → (k ≤ length xs) × (drop k xs ≡ ys)
  get_from-eq-some xs k ys e = elim (Bool-cases (leb k (length xs))) [
    | inl inside ↦ (leb→le k (length xs) inside, ground (arith, inside, e))
    | inr past ↦ absurd (ground (arith, past, e))
  ]

  drop-length : (front back : List A) → drop (length front) (front ++ back) ≡ back
  drop-length [] back = refl
  drop-length (x ∷ front) back = drop-length front back

  take-length : (front back : List A) → take (length front) (front ++ back) ≡ front
  take-length [] back = refl
  take-length (x ∷ front) back = ap (λ t. x ∷ t) (take-length front back)

  -- The middle of what stands at `k`.
  pub get_range_stored :
      (xs : List A) (k n : ℕ) (front middle back : List A)
      → length front ≡ n
      → get_from xs k ≡ some (front ++ (middle ++ back))
      → get_range xs (k + n) (k + n + length middle) ≡ some middle
  get_range_stored xs k n front middle back sized e =
      let (inside, rest) = get_from-eq-some xs k (front ++ (middle ++ back)) e in
      let behind : drop (k + n) xs ≡ middle ++ back =
        sym (drop-drop n k (k + n) xs refl)
        ∙ ap (drop n) rest
        ∙ ap (λ t. drop t (front ++ (middle ++ back))) (sym sized)
        ∙ drop-length front (middle ++ back) in
      get_range_within xs (k + n) (length middle) (
        omega (
          arith,
          length-drop k xs,
          ap length rest,
          length-append front (middle ++ back),
          length-append middle back,
        ))
      ∙ ap (λ t. some (take (length middle) t)) behind
      ∙ ap some (take-length middle back)

  -- What stands at the front.
  pub get_range_front :
      (front back : List A) → get_range (front ++ back) 0 (length front) ≡ some front
  get_range_front front back =
      let fits =
        le→leb (length front) (length (front ++ back)) (omega (arith, length-append front back)) in
      let whole : length front - 0 ≡ length front = omega arith in
      rw (le→leb 0 (length front) (omega arith), fits, whole) (ap some (take-length front back))
