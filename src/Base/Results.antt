-- ===== src/Base/Results.antt =====
-- How a call ends: with a value, or with the process gone.
use mathlib.Core.Path.{◌≡◌, refl, subst}
use mathlib.Core.Bool.{Bool, true, false}

-- `assertion`: CRASH_ASSERT of a false condition, which writes through a null pointer on purpose.
-- `null_access`: a read or a call through a null pointer.
-- `out_of_range`: an access outside an array.
-- `self_lock`: a thread locks a std::mutex that it holds.
-- `int_overflow`: the result of signed arithmetic that its type cannot hold.
pub data Fault : Type 0 where
  assertion null_access out_of_range self_lock int_overflow : Fault

pub data Outcome {ℓ} (A : Type ℓ) : Type ℓ where
  done : A → Outcome A
  crash : Fault → Outcome A

infixl 5 ◌>>=◌ ◌>>◌
abbrev pub ◌>>=◌ {ℓ κ} : {A : Type ℓ} {B : Type κ} → Outcome A → (A → Outcome B) → Outcome B
done a >>= f = f a
crash e >>= f = crash e

abbrev pub ◌>>◌ {ℓ} : {B : Type ℓ} → Outcome (Unit {0}) → Outcome B → Outcome B
m >> k = m >>= λ _. k

-- win-iocp/win-iocp/Exception.hpp, CRASH_ASSERT.
abbrev pub crash_assert : Bool → Outcome (Unit {0})
crash_assert true = done tt
crash_assert false = crash assertion

-- Inversion of a call that returns.
pub >>=-eq-done {ℓ κ} :
    {A : Type ℓ} {B : Type κ} (m : Outcome A) (f : A → Outcome B) {b : B}
    → (m >>= f) ≡ done b
    → (a : A) × (m ≡ done a) × (f a ≡ done b)
>>=-eq-done (done a) f h = (a, refl, h)
>>=-eq-done (crash e) f h = cc

pub done-eq {ℓ κ} :
    {A : Type ℓ} {B : Type κ} {a a' : A} {b b' : B}
    → ◌≡◌ {A = Outcome (A × B)} (done (a, b)) (done (a', b'))
    → (a ≡ a') × (b ≡ b')
done-eq e = (cc, cc)

-- The call returns, and what it returns satisfies `P`.
abbrev pub Returns {ℓ} : {A : Type ℓ} → (A → Type 0) → Outcome A → Type 0
Returns P (done a) = P a
Returns P (crash e) = ⊥

pub Returns-map {ℓ} :
    {A : Type ℓ} (P Q : A → Type 0) (m : Outcome A)
    → ((a : A) → P a → Q a)
    → Returns P m
    → Returns Q m
Returns-map P Q (done a) f h = f a h
Returns-map P Q (crash e) f h = h

pub Returns-bind {ℓ κ} :
    {A : Type ℓ} {B : Type κ} (P : A → Type 0) (Q : B → Type 0) (m : Outcome A) (f : A → Outcome B)
    → ((a : A) → P a → Returns Q (f a))
    → Returns P m
    → Returns Q (m >>= f)
Returns-bind P Q (done a) f g h = g a h
Returns-bind P Q (crash e) f g h = h

pub Returns-eq_done {ℓ} :
    {A : Type ℓ} (P : A → Type 0) (m : Outcome A) → Returns P m → (a : A) × (m ≡ done a) × P a
Returns-eq_done P (done a) h = (a, refl, h)
Returns-eq_done P (crash e) h = absurd h

pub Returns-done {ℓ} :
    {A : Type ℓ} (P : A → Type 0) (m : Outcome A) {a : A} → m ≡ done a → Returns P m → P a
Returns-done P m e h = subst (Returns P) e h

-- If the call returns, what it returns satisfies `P`.
abbrev pub Safely {ℓ} : {A : Type ℓ} → (A → Type 0) → Outcome A → Type 0
Safely P (done a) = P a
Safely P (crash e) = Unit

pub Safely-done {ℓ} :
    {A : Type ℓ} (P : A → Type 0) (m : Outcome A) {a : A} → m ≡ done a → Safely P m → P a
Safely-done P m e h = subst (Safely P) e h

pub Safely-map {ℓ} :
    {A : Type ℓ} (P Q : A → Type 0) (m : Outcome A)
    → ((a : A) → P a → Q a)
    → Safely P m
    → Safely Q m
Safely-map P Q (done a) f h = f a h
Safely-map P Q (crash e) f h = tt

-- A bind is safe if its continuation is at the value that the first call returns.
pub Safely-bind {ℓ κ} :
    {A : Type ℓ} {B : Type κ} (P : B → Type 0) (m : Outcome A) (f : A → Outcome B)
    → ((a : A) → m ≡ done a → Safely P (f a))
    → Safely P (m >>= f)
Safely-bind P (done a) f h = h a refl
Safely-bind P (crash e) f h = tt
