-- ===== src/Prelude/Results.antt =====
-- Code that can leave the defined behaviour of C++, or throw.
use mathlib.Core.Path.{◌≡◌}

pub data Fault : Type 0 where
  -- undefined behaviour: `*map.end()`
  end_dereferenced : Fault
  -- undefined behaviour: an element past the end of a std::array
  read_past_end : Fault
  -- undefined behaviour: a write past the end of a std::array
  write_past_end : Fault
  -- std::out_of_range, thrown by std::string::substr
  out_of_range : Fault

pub data Result {ℓ} (A : Type ℓ) : Type ℓ where
  ok : A → Result A
  fault : Fault → Result A

infixl 5 ◌>>=◌
abbrev pub ◌>>=◌ {ℓ κ} : {A : Type ℓ} {B : Type κ} → Result A → (A → Result B) → Result B
ok a >>= f = f a
fault e >>= f = fault e

-- A step that succeeds leaves the rest of the chain.
pub ok_bind {ℓ κ} :
    {A : Type ℓ} {B : Type κ} {r : Result A} {a : A} (f : A → Result B) → r ≡ ok a → (r >>= f) ≡ f a
ok_bind f e = rw e

-- The call returns, and its value has the property.
abbrev pub Returns {ℓ} : {A : Type ℓ} → (A → Type 0) → Result A → Type 0
Returns P (ok a) = P a
Returns P (fault e) = ⊥

pub Returns-weaken {ℓ} :
    {A : Type ℓ} (P Q : A → Type 0) (r : Result A)
    → ((a : A) → P a → Q a)
    → Returns P r
    → Returns Q r
Returns-weaken P Q (ok a) k h = k a h
Returns-weaken P Q (fault e) k h = h

pub Returns-bind {ℓ κ} :
    {A : Type ℓ} {B : Type κ} (P : A → Type 0) (Q : B → Type 0) (r : Result A) (f : A → Result B)
    → Returns P r
    → ((a : A) → P a → Returns Q (f a))
    → Returns Q (r >>= f)
Returns-bind P Q (ok a) f h k = k a h
Returns-bind P Q (fault e) f h k = absurd h

pub Returns-both {ℓ} :
    {A : Type ℓ} (P Q R : A → Type 0) (r : Result A)
    → ((a : A) → P a → Q a → R a)
    → Returns P r
    → Returns Q r
    → Returns R r
Returns-both P Q R (ok a) k h h' = k a h h'
Returns-both P Q R (fault e) k h h' = h

-- If the call returns, its value has the property.
abbrev pub IfReturns {ℓ} : {A : Type ℓ} → (A → Type 0) → Result A → Type 0
IfReturns P (ok a) = P a
IfReturns P (fault e) = Unit {0}

pub IfReturns-bind {ℓ κ} :
    {A : Type ℓ} {B : Type κ} (P : A → Type 0) (Q : B → Type 0) (r : Result A) (f : A → Result B)
    → IfReturns P r
    → ((a : A) → P a → IfReturns Q (f a))
    → IfReturns Q (r >>= f)
IfReturns-bind P Q (ok a) f h k = k a h
IfReturns-bind P Q (fault e) f h k = tt

pub IfReturns-both {ℓ} :
    {A : Type ℓ} (P Q R : A → Type 0) (r : Result A)
    → ((a : A) → P a → Q a → R a)
    → IfReturns P r
    → IfReturns Q r
    → IfReturns R r
IfReturns-both P Q R (ok a) k h h' = k a h h'
IfReturns-both P Q R (fault e) k h h' = tt

-- What holds of the rest of a chain, whatever the step before it gives, holds of the chain.
pub IfReturns-after {ℓ κ} :
    {A : Type ℓ} {B : Type κ} (Q : B → Type 0) (r : Result A) (f : A → Result B)
    → ((a : A) → IfReturns Q (f a))
    → IfReturns Q (r >>= f)
IfReturns-after Q (ok a) f k = k a
IfReturns-after Q (fault e) f k = tt
