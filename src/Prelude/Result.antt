-- ===== src/Prelude/Result.antt =====
-- A call that returns a value or raises an exception.
use mathlib.Core.Path.{◌≡◌, refl, subst}
use mathlib.Core.Logic.{◌⊎◌, inl, inr}

pub data Result (E A : Type 0) : Type 0 where
  ok : A → Result E A
  err : E → Result E A

infixl 10 ◌>>=◌
abbrev pub ◌>>=◌ : {E A B : Type 0} → Result E A → (A → Result E B) → Result E B
ok a >>= f = f a
err e >>= f = err e

pub Result-cases :
    {E A : Type 0} (r : Result E A) → ((a : A) × (r ≡ ok a)) ⊎ ((e : E) × (r ≡ err e))
Result-cases (ok a) = inl (a, refl)
Result-cases (err e) = inr (e, refl)

-- What a call that returns gives back has the property.
abbrev pub Returns : {E A : Type 0} → (A → Type 0) → Result E A → Type 0
Returns P (ok a) = P a
Returns P (err e) = Unit

pub bind-Returns :
    {E A B : Type 0} (Q : A → Type 0) (P : B → Type 0) (r : Result E A) (f : A → Result E B)
    → Returns Q r
    → ((a : A) → Q a → Returns P (f a))
    → Returns P (r >>= f)
bind-Returns Q P (ok a) f q h = h a q
bind-Returns Q P (err e) f q h = tt

pub value_of :
    {E A : Type 0} (P : A → Type 0) (r : Result E A) (a : A) → Returns P r → r ≡ ok a → P a
value_of P r a h e = subst (Returns P) e h

pub always-Returns :
    {E A B : Type 0} (P : B → Type 0) (r : Result E A) (f : A → Result E B)
    → ((a : A) → Returns P (f a))
    → Returns P (r >>= f)
always-Returns P (ok a) f h = h a
always-Returns P (err e) f h = tt
