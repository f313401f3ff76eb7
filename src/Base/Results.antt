-- ===== src/Base/Results.antt =====
-- `Result<T, E>` and its `?` operator.
use mathlib.Core.Path.{◌≡◌, refl}
use mathlib.Core.Logic.{◌⊎◌, inl, inr}

pub data Result {ε ℓ} (E : Type ε) (T : Type ℓ) : Type (ε ⊔ ℓ) where
  err : (error : E) → Result E T
  ok : (value : T) → Result E T

-- `result?` with the rest of the function.
infixl 5 ◌>>=◌
abbrev pub ◌>>=◌ {ε ℓ κ} :
    {E : Type ε} {T : Type ℓ} {U : Type κ} → Result E T → (T → Result E U) → Result E U
err error >>= rest = err error
ok value >>= rest = rest value

-- What comes behind a `?` returns only where the result was `Ok`.
pub >>=-eq-ok {ε ℓ κ} :
    {E : Type ε} {T : Type ℓ} {U : Type κ} (result : Result E T) (rest : T → Result E U) {u : U}
    → (result >>= rest) ≡ ok u
    → (value : T) × (result ≡ ok value) × (rest value ≡ ok u)
>>=-eq-ok (err error) rest returned = cc
>>=-eq-ok (ok value) rest returned = (value, refl, returned)

pub Result-cases {ℓ κ} :
    {E : Type κ} {A : Type ℓ} (r : Result E A) → ((a : A) × (r ≡ ok a)) ⊎ ((e : E) × (r ≡ err e))
Result-cases (ok a) = inl (a, refl)
Result-cases (err e) = inr (e, refl)

-- A call that may panic.
pub data Partial {ℓ} (A : Type ℓ) : Type ℓ where
  returns : A → Partial A
  panics : Partial A

abbrev pub and_then {ℓ κ} : {A : Type ℓ} {B : Type κ} → Partial A → (A → Partial B) → Partial B
and_then (returns a) f = f a
and_then panics f = panics

pub Partial-cases {ℓ} : {A : Type ℓ} (p : Partial A) → ((a : A) × (p ≡ returns a)) ⊎ (p ≡ panics)
Partial-cases (returns a) = inl (a, refl)
Partial-cases panics = inr refl
