-- ===== src/Nom.antt =====
-- The parser combinators of the crate `nom` that the source calls, as an interface: the operations
-- with the behaviour that nom documents. A parser takes the input that is left and gives the input
-- that is left after it. `Nom/Reader.antt` shows that the behaviour can be met.
pub mod Reader
pub mod Steps
pub mod Encode
use notatin.Base.{
  ℕ, zero, suc, ◌≤◌, ◌<◌, ◌≡◌, List, [], ◌∷◌, arith, Bytes, length, take, drop, from_le, signed32,
  ℤ, leb, ltb, if◌then◌else◌, Bool, true, false, ◌&&◌,
}
use notatin.Outcome.{Error, Outcome, ok, err, panic, no_fuel, nom_error}

-- `nom::Err::Error`, from which `alt` and `many0` recover, and `nom::Err::Incomplete`.
pub data NomErr : Type 0 where
  error incomplete : NomErr

-- `IResult`, with the panics of the code that runs inside a parser.
pub data IResult (A : Type 0) : Type 0 where
  done : Bytes → A → IResult A
  failed : NomErr → IResult A
  crash : IResult A

abbrev pub Parser : Type 0 → Type 0
Parser A = Bytes → IResult A

infixl 5 ◌>>=◌ ◌>>◌
abbrev pub ◌>>=◌ : {A B : Type 0} → Parser A → (A → Parser B) → Parser B
◌>>=◌ p f input = elim (p input) [ done rest a ↦ f a rest | failed e ↦ failed e | crash ↦ crash ]

abbrev pub ◌>>◌ : {A B : Type 0} → Parser A → Parser B → Parser B
p >> q = p >>= λ _. q

abbrev pub pure : {A : Type 0} → A → Parser A
pure a input = done input a

-- The input that is left, which the source reads through its variable `input`.
abbrev pub remaining : Parser Bytes
remaining input = done input input

-- `From<nom::Err>` of src/err.rs: every error of nom becomes `Error::Nom`.
abbrev pub finish : {A : Type 0} → IResult A → Outcome (Bytes × A)
finish (done rest a) = ok (rest, a)
finish (failed e) = err nom_error
finish crash = panic

-- A parser that reads something whenever it succeeds.
abbrev pub Consumes : {A : Type 0} → Parser A → Type 0
Consumes {A} p = (input rest : Bytes) (a : A) → p input ≡ done rest a → length rest < length input

-- Of `n` bytes that are there, the value `f` of the input; `e` where they are not.
abbrev pub fixed : {A : Type 0} → ℕ → NomErr → (Bytes → A) → Parser A
fixed n e f input = if leb n (length input) then done (drop n input) (f input) else failed e

-- Whether the input begins with the bytes.
abbrev pub starts_with : Bytes → Bytes → Bool
starts_with [] input = true
starts_with (b ∷ bs) [] = false
starts_with (b ∷ bs) (x ∷ xs) = leb b x && leb x b && starts_with bs xs

abbrev pub or_else : {A : Type 0} → IResult A → IResult A → IResult A
or_else (done rest a) r = done rest a
or_else (failed error) r = r
or_else (failed incomplete) r = failed incomplete
or_else crash r = crash

-- One round of `many0`, given the rest of the loop: an `Error` ends the loop with what was read.
abbrev pub many0_round : {A : Type 0} → Parser A → Parser (List A) → Parser (List A)
many0_round p again input = elim (p input) [
  | done rest a ↦ elim (again rest) [
    | done rest' as_read ↦ done rest' (a ∷ as_read)
    | failed e ↦ failed e
    | crash ↦ crash
  ]
  | failed error ↦ done input []
  | failed incomplete ↦ failed incomplete
  | crash ↦ crash
]

abbrev pub count_round : {A : Type 0} → Parser A → Parser (List A) → Parser (List A)
count_round p again = do a ← p; rest ← again; pure (a ∷ rest)

pub record Nom : Type 1 where
  pub tag : Bytes → Parser (Unit {0})
  pub take_complete : ℕ → Parser Bytes
  pub take_streaming : ℕ → Parser Bytes
  pub le_u16 : Parser ℕ
  pub le_u32 : Parser ℕ
  pub le_u64 : Parser ℕ
  pub le_i32 : Parser ℤ
  pub count : {A : Type 0} → Parser A → ℕ → Parser (List A)
  pub many0 : {A : Type 0} → Parser A → Parser (List A)
  pub alt : {A : Type 0} → Parser A → Parser A → Parser A
  pub tag_lem :
      (bs input : Bytes)
      → tag bs input
        ≡ (if starts_with bs input then done (drop (length bs) input) tt else failed error)
  pub take_complete_lem :
      (n : ℕ) (input : Bytes) → take_complete n input ≡ fixed n error (take n) input
  pub take_streaming_lem :
      (n : ℕ) (input : Bytes) → take_streaming n input ≡ fixed n incomplete (take n) input
  pub le_u16_lem : (input : Bytes) → le_u16 input ≡ fixed 2 error (λ i. from_le (take 2 i)) input
  pub le_u32_lem : (input : Bytes) → le_u32 input ≡ fixed 4 error (λ i. from_le (take 4 i)) input
  pub le_u64_lem : (input : Bytes) → le_u64 input ≡ fixed 8 error (λ i. from_le (take 8 i)) input
  pub le_i32_lem :
      (input : Bytes) → le_i32 input ≡ fixed 4 error (λ i. signed32 (from_le (take 4 i))) input
  pub count-zero : {A : Type 0} (p : Parser A) (input : Bytes) → count p 0 input ≡ done input []
  pub count-suc :
      {A : Type 0} (p : Parser A) (n : ℕ) (input : Bytes)
      → count p (suc n) input ≡ count_round p (count p n) input
  pub many0_lem :
      {A : Type 0} (p : Parser A) (input : Bytes)
      → Consumes p
      → many0 p input ≡ many0_round p (many0 p) input
  pub alt_lem :
      {A : Type 0} (p q : Parser A) (input : Bytes) → alt p q input ≡ or_else (p input) (q input)
