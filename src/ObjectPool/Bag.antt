-- ===== src/ObjectPool/Bag.antt =====
-- Slots without their order: lists up to how often they hold each address.
use windows_iocp_network.Base.{ℕ, ◌+◌, ◌≡◌, List, [], ◌∷◌, ◌++◌, arith, ◌==◌, if◌then◌else◌}
use mathlib.Core.Quot
use mathlib.Core.Quot.{Quot}

abbrev pub occurrences : ℕ → List ℕ → ℕ
occurrences a [] = 0
occurrences a (x ∷ xs) = (if x == a then 1 else 0) + occurrences a xs

pub occurrences-append :
    (a : ℕ) (xs ys : List ℕ) → occurrences a (xs ++ ys) ≡ occurrences a xs + occurrences a ys
occurrences-append a [] ys = omega arith
occurrences-append a (x ∷ xs) ys = omega (arith, occurrences-append a xs ys)

abbrev pub SameSlots : List ℕ → List ℕ → Type 0
SameSlots xs ys = (a : ℕ) → occurrences a xs ≡ occurrences a ys

abbrev pub Bag : Type 0
Bag = Quot SameSlots

abbrev pub bag : List ℕ → Bag
bag xs = Quot.mk xs

pub bag-append :
    (xs ys zs : List ℕ)
    → ((a : ℕ) → occurrences a xs + occurrences a ys ≡ occurrences a zs)
    → bag (xs ++ ys) ≡ bag zs
bag-append xs ys zs h = Quot.sound (λ a. omega (arith, h a, occurrences-append a xs ys))
