-- ===== src/Prelude/Run.antt =====
-- How a call of the C code ends: with a value, in an access outside an array or to a page that is not valid (undefined behaviour
-- or a trap of the kernel), with a write through a pointer of a process to the kernel's own memory, after which nothing is known of the
-- state, or, in the model alone, with its fuel spent.

use mathlib.Core.Path.{◌≡◌}

pub data Run {ℓ} (A : Type ℓ) : Type ℓ where
  ok : A → Run A
  fault wild out_of_fuel : Run A

infixl 5 ◌>>=◌
abbrev pub ◌>>=◌ {ℓ κ} : {A : Type ℓ} {B : Type κ} → Run A → (A → Run B) → Run B
ok a >>= f = f a
fault >>= f = fault
wild >>= f = wild
out_of_fuel >>= f = out_of_fuel

-- the value, or another one
abbrev value_or {ℓ} : {A : Type ℓ} → A → Run A → A
value_or d (ok a) = a
value_or d fault = d
value_or d wild = d
value_or d out_of_fuel = d

pub ok-injective {ℓ} : {A : Type ℓ} {a b : A} → ok a ≡ ok b → a ≡ b
ok-injective {A} {a} {b} e = λ i. value_or a (e i)

-- What holds of the value, if there is one: a statement about safety.
abbrev pub Ensures {ℓ} : {A : Type ℓ} → (A → Type 0) → Run A → Type 0
Ensures P (ok a) = P a
Ensures P fault = Unit {0}
Ensures P wild = Unit {0}
Ensures P out_of_fuel = Unit {0}

pub Ensures-bind {ℓ κ} :
    {A : Type ℓ} {B : Type κ} (Q : A → Type 0) (P : B → Type 0) (r : Run A) (f : A → Run B)
    → Ensures Q r
    → ((a : A) → Q a → Ensures P (f a))
    → Ensures P (r >>= f)
Ensures-bind Q P (ok a) f q step = step a q
Ensures-bind Q P fault f q step = q
Ensures-bind Q P wild f q step = q
Ensures-bind Q P out_of_fuel f q step = q

pub Ensures-map {ℓ} :
    {A : Type ℓ} (P Q : A → Type 0) (r : Run A)
    → Ensures P r
    → ((a : A) → P a → Ensures Q (ok a))
    → Ensures Q r
Ensures-map P Q (ok a) p step = step a p
Ensures-map P Q fault p step = p
Ensures-map P Q wild p step = p
Ensures-map P Q out_of_fuel p step = p

pub Ensures-ok {ℓ} : {A : Type ℓ} (P : A → Type 0) (a : A) → Ensures P (ok a) → P a
Ensures-ok P a p = p

-- the same where nothing is known of the first part
pub Ensures-any {ℓ κ} :
    {A : Type ℓ} {B : Type κ} (P : B → Type 0) (r : Run A) (f : A → Run B)
    → ((a : A) → Ensures P (f a))
    → Ensures P (r >>= f)
Ensures-any P (ok a) f step = step a
Ensures-any P fault f step = tt
Ensures-any P wild f step = tt
Ensures-any P out_of_fuel f step = tt
