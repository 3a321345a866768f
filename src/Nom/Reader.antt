-- ===== src/Nom/Reader.antt =====
-- Functions with the behaviour that `Nom` asks for.
use notatin.Base.{
  ℕ, zero, suc, ◌<◌, ◌≡◌, refl, List, [], arith, Bytes, length, take, drop, from_le, signed32,
  if◌then◌else◌,
}
use notatin.Nom.{
  error, incomplete, IResult, done, failed, crash, Parser, Consumes, fixed, starts_with, or_else,
  many0_round, count_round, Nom,
}

abbrev pub count_all : {A : Type 0} → Parser A → ℕ → Parser (List A)
count_all p zero input = done input []
count_all p (suc n) input = count_round p (count_all p n) input

-- `many0` on fuel: a loop that consumes makes fewer rounds than there are bytes.
many0_fuel : {A : Type 0} → ℕ → Parser A → Parser (List A)
many0_fuel zero p input = crash
many0_fuel (suc n) p input = many0_round p (many0_fuel n p) input

unfoldable pub many0_all : {A : Type 0} → Parser A → Parser (List A)
unfolding many0_fuel
many0_all p input = many0_fuel (suc (length input)) p input

-- A round depends on the rest of the loop only at the input that the round leaves.
round_congruence :
    {A : Type 0} (p : Parser A) (f g : Parser (List A)) (input : Bytes)
    → ((rest : Bytes) (a : A) → p input ≡ done rest a → f rest ≡ g rest)
    → many0_round p f input ≡ many0_round p g input
round_congruence {A} p f g input same = by_result (p input) same
  where
    by_result :
        (r : IResult A)
        → ((rest : Bytes) (a : A) → r ≡ done rest a → f rest ≡ g rest)
        → many0_round (λ _. r) f input ≡ many0_round (λ _. r) g input
    by_result (done rest a) h = rw (h rest a refl, many0_round)
    by_result (failed error) h = refl
    by_result (failed incomplete) h = refl
    by_result crash h = refl

many0_fuel_enough :
    {A : Type 0} (p : Parser A)
    → Consumes p
    → (n m : ℕ) (input : Bytes) → length input < n
    → length input < m
    → many0_fuel n p input ≡ many0_fuel m p input
unfolding many0_fuel
many0_fuel_enough p c zero m input h k = absurd (omega arith)
many0_fuel_enough p c (suc n) zero input h k = absurd (omega arith)
many0_fuel_enough p c (suc n) (suc m) input h k =
    round_congruence p (many0_fuel n p) (many0_fuel m p) input λ rest a e.
      many0_fuel_enough p c n m rest (omega (arith, c input rest a e))
        (omega (arith, c input rest a e))

pub many0_all_lem :
    {A : Type 0} (p : Parser A) (input : Bytes)
    → Consumes p
    → many0_all p input ≡ many0_round p (many0_all p) input
unfolding many0_all
many0_all_lem p input c =
    round_congruence p (many0_fuel (length input) p) (many0_all p) input λ rest a e.
      many0_fuel_enough p c (length input) (suc (length rest)) rest (c input rest a e) (omega arith)

abbrev pub reader : Nom
reader = record {
  tag = λ bs input. if starts_with bs input then done (drop (length bs) input) tt else failed error;
  take_complete = λ n. fixed n error (take n);
  take_streaming = λ n. fixed n incomplete (take n);
  le_u16 = fixed 2 error (λ i. from_le (take 2 i));
  le_u32 = fixed 4 error (λ i. from_le (take 4 i));
  le_u64 = fixed 8 error (λ i. from_le (take 8 i));
  le_i32 = fixed 4 error (λ i. signed32 (from_le (take 4 i)));
  count = count_all;
  many0 = many0_all;
  alt = λ p q input. or_else (p input) (q input);
  tag_lem = λ bs input. refl;
  take_complete_lem = λ n input. refl;
  take_streaming_lem = λ n input. refl;
  le_u16_lem = λ input. refl;
  le_u32_lem = λ input. refl;
  le_u64_lem = λ input. refl;
  le_i32_lem = λ input. refl;
  count-zero = λ p input. refl;
  count-suc = λ p n input. refl;
  many0_lem = many0_all_lem;
  alt_lem = λ p q input. refl;
}
