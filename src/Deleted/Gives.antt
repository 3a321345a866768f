-- ===== src/Deleted/Gives.antt =====
-- Properties of whatever a run gives, along the chains and the branches of a function.
use notatin.Base.{◌≡◌, refl, sym, Bool, true, false, Option, none, some, Bytes}
use notatin.Outcome.{Outcome, ok, err, panic, no_fuel, ◌>>=◌, ok_injective}
use notatin.Nom.{IResult, done, failed, crash}

-- Whatever a run gives satisfies `P`.
abbrev pub Gives : {A : Type 0} → (A → Type 0) → Outcome A → Type 0
Gives {A} P o = (a : A) → o ≡ ok a → P a

pub Gives-ok : {A : Type 0} (P : A → Type 0) (a : A) → P a → Gives P (ok a)
Gives-ok P a h b e = let same : a ≡ b = ok_injective e in rw (sym same) h

pub Gives-bind :
    {A B : Type 0} (P : A → Type 0) (Q : B → Type 0) (o : Outcome A) (next : A → Outcome B)
    → Gives P o
    → ((a : A) → P a → Gives Q (next a))
    → Gives Q (o >>= next)
Gives-bind P Q (ok a) next h k = k a (h a refl)
Gives-bind P Q (err d) next h k = λ b e. absurd cc
Gives-bind P Q panic next h k = λ b e. absurd cc
Gives-bind P Q no_fuel next h k = λ b e. absurd cc

pub Gives-test :
    {A : Type 0} (P : A → Type 0) (b : Bool) (x y : Outcome A)
    → Gives P x
    → Gives P y
    → Gives P (elim b [ true ↦ x | false ↦ y ])
Gives-test P true x y h k = h
Gives-test P false x y h k = k

pub Gives-option :
    {A B : Type 0} (P : B → Type 0) (o : Option A) (x : A → Outcome B) (y : Outcome B)
    → ((a : A) → Gives P (x a))
    → Gives P y
    → Gives P (elim o [ some a ↦ x a | none ↦ y ])
Gives-option P (some a) x y h k = h a
Gives-option P none x y h k = k

pub Gives-else :
    {A : Type 0} (P : A → Type 0) (b : Bool) (x y : Outcome A)
    → Gives P x
    → Gives P y
    → Gives P (elim b [ false ↦ y | true ↦ x ])
Gives-else P true x y h k = h
Gives-else P false x y h k = k

pub Gives-read :
    {A B : Type 0} (P : B → Type 0) (r : IResult A) (next : Bytes → A → Outcome B) (y : Outcome B)
    → ((rest : Bytes) (a : A) → Gives P (next rest a))
    → Gives P y
    → Gives P (elim r [ done rest a ↦ next rest a | failed _ ↦ y | crash ↦ panic ])
Gives-read P (done rest a) next y h k = h rest a
Gives-read P (failed x) next y h k = k
Gives-read P crash next y h k = λ b e. absurd cc

-- What holds of a run also holds with a consequence of it.
pub after :
    {A : Type 0} (P Q : A → Type 0) (o : Outcome A) → ((a : A) → Q a → P a) → Gives Q o → Gives P o
after P Q o f h a e = f a (h a e)

abbrev pub Anything : {A : Type 0} → A → Type 0
Anything a = Unit

pub any-Gives : {A : Type 0} (o : Outcome A) → Gives Anything o
any-Gives o a e = tt
