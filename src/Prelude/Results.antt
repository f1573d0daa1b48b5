-- ===== src/Prelude/Results.antt =====
-- Fallible code: Go's `(value, error)` as a sum, with `do`.
use mathlib.Core.Path.{◌≡◌, refl}
use mathlib.Core.Bool.{Bool, true, false}
use mathlib.Core.Option.{Option, none, some}
use mathlib.Core.Logic.{◌⊎◌, inl, inr}

pub data Result {ℓ} (E : Type 0) (A : Type ℓ) : Type ℓ where
  ok : A → Result E A
  err : E → Result E A

infixl 5 ◌>>=◌ ◌>>◌
abbrev pub ◌>>=◌ {ℓ κ} :
    {E : Type 0} {A : Type ℓ} {B : Type κ} → Result E A → (A → Result E B) → Result E B
ok a >>= f = f a
err e >>= f = err e

abbrev pub ◌>>◌ {ℓ} : {E : Type 0} {B : Type ℓ} → Result E (Unit {0}) → Result E B → Result E B
m >> k = m >>= λ _. k

-- `if b { return err }`
abbrev pub fail_if : {E : Type 0} → Bool → E → Result E (Unit {0})
fail_if true e = err e
fail_if false e = ok tt

-- An operation whose only result is an error, `nil` where there is none.
abbrev pub check : {E : Type 0} → Option E → Result E (Unit {0})
check none = ok tt
check (some e) = err e

pub Result-cases {ℓ} :
    {E : Type 0} {A : Type ℓ} (m : Result E A) → ((a : A) × (m ≡ ok a)) ⊎ ((e : E) × (m ≡ err e))
Result-cases (ok a) = inl (a, refl)
Result-cases (err e) = inr (e, refl)

-- The operation succeeds.
abbrev pub IsOk {ℓ} : {E : Type 0} {A : Type ℓ} → Result E A → Type 0
IsOk (ok a) = Unit
IsOk (err e) = ⊥

module _ {ℓ κ} {E : Type 0} {A : Type ℓ} {B : Type κ} where
  -- The two parts of a success.
  pub bind-eq-ok :
      {b : B} (m : Result E A) (f : A → Result E B)
      → (m >>= f) ≡ ok b
      → (a : A) × (m ≡ ok a) × (f a ≡ ok b)
  bind-eq-ok (err e) f h = cc
  bind-eq-ok (ok a) f h = (a, refl, h)

  pub IsOk-bind :
      (m : Result E A) (f : A → Result E B)
      → IsOk m
      → ((a : A) → m ≡ ok a → IsOk (f a))
      → IsOk (m >>= f)
  IsOk-bind (ok a) f hm hf = hf a refl
  IsOk-bind (err e) f hm hf = elim hm [ ]

  pub bind-IsOk :
      (m : Result E A) (f : A → Result E B)
      → IsOk (m >>= f)
      → IsOk m × ((a : A) × (m ≡ ok a) × IsOk (f a))
  bind-IsOk (ok a) f h = (tt, (a, refl, h))
  bind-IsOk (err e) f h = elim h [ ]

pub Result-ok {ℓ} : {E : Type 0} {A : Type ℓ} {a b : A} → ◌≡◌ {A = Result E A} (ok a) (ok b) → a ≡ b
Result-ok h = cc

pub Result-err {ℓ} :
    {E : Type 0} {A : Type ℓ} {d e : E} → ◌≡◌ {A = Result E A} (err d) (err e) → d ≡ e
Result-err h = cc
