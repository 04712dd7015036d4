-- ===== src/Prelude/Result.antt =====
-- Fallible code: `Result` with its bind, and what a successful chain tells of its parts.
use mathlib.Core.Path.{◌≡◌, refl}
use mathlib.Core.Logic.{◌⊎◌, inl, inr}
use mathlib.Core.Bool.{Bool, true, false}

pub data Result (E A : Type 0) : Type 0 where
  ok : A → Result E A
  err : E → Result E A

infixr 5 ◌>>=◌ ◌>>◌
abbrev pub ◌>>=◌ : {E A B : Type 0} → Result E A → (A → Result E B) → Result E B
ok x >>= next = next x
err failure >>= next = err failure

abbrev pub ◌>>◌ : {E B : Type 0} → Result E (Unit {0}) → Result E B → Result E B
first >> second = first >>= λ _. second

-- `bail!` under a test.
abbrev pub bail_if : {E : Type 0} → Bool → E → Result E (Unit {0})
bail_if true e = err e
bail_if false e = ok tt

pub >>=-eq-ok :
    {E A B : Type 0} (first : Result E A) (next : A → Result E B) {b : B}
    → (first >>= next) ≡ ok b
    → (x : A) × (first ≡ ok x) × (next x ≡ ok b)
>>=-eq-ok (ok x) next h = (x, refl, h)
>>=-eq-ok (err failure) next h = absurd (cc h)

pub Result-cases :
    {E A : Type 0} (r : Result E A) → ((a : A) × (r ≡ ok a)) ⊎ ((e : E) × (r ≡ err e))
Result-cases (ok a) = inl (a, refl)
Result-cases (err e) = inr (e, refl)

-- The parts of equal pairs of a state and a result.
pub pair-first : {A B : Type 0} {p q : A × B} → p ≡ q → p.0 ≡ q.0
pair-first {p} {q} h i = (h i).0

pub pair-second : {A B : Type 0} {p q : A × B} → p ≡ q → p.1 ≡ q.1
pair-second {p} {q} h i = (h i).1
