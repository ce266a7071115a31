-- ===== src/ObjectPool/Used.antt =====
-- Lists of objects: without one of them, and all of them slots.
use windows_iocp_network.Base.{
  ℕ, ◌+◌, ◌≡◌, true, false, List, [], ◌∷◌, arith, ◌==◌, if◌then◌else◌, length, mem, Distinct,
}
use windows_iocp_network.ObjectPool.Bag.{occurrences}

-- A list without the first occurrence of an object.
abbrev pub without : ℕ → List ℕ → List ℕ
without p [] = []
without p (x ∷ xs) = if x == p then xs else x ∷ without p xs

pub mem-without :
    (q p : ℕ) (xs : List ℕ)
    → Distinct xs
    → mem q (without p xs) ≡ (if q == p then false else mem q xs)
mem-without q p [] d = ground arith
mem-without q p (x ∷ xs) d = ground (arith, mem-without q p xs d.1, d.0)

pub without-Distinct : (p : ℕ) (xs : List ℕ) → Distinct xs → Distinct (without p xs)
without-Distinct p [] d = tt
without-Distinct p (x ∷ xs) d =
    ground (arith, without-Distinct p xs d.1, mem-without x p xs d.1, d.0)

pub length-without : (p : ℕ) (xs : List ℕ) → mem p xs ≡ true → length (without p xs) + 1 ≡ length xs
length-without p [] q = cc
length-without p (x ∷ xs) q = ground (arith, length-without p xs)

pub occurrences-without :
    (a p : ℕ) (xs : List ℕ)
    → mem p xs ≡ true
    → occurrences a (without p xs) + (if p == a then 1 else 0) ≡ occurrences a xs
occurrences-without a p [] q = cc
occurrences-without a p (x ∷ xs) q = ground (arith, occurrences-without a p xs)

abbrev pub AllSlots : List ℕ → List ℕ → Type 0
AllSlots ss [] = Unit {0}
AllSlots ss (p ∷ ps) = (mem p ss ≡ true) × AllSlots ss ps

pub AllSlots-mem : (ss ps : List ℕ) → ((p : ℕ) → mem p ps ≡ true → mem p ss ≡ true) → AllSlots ss ps
AllSlots-mem ss [] h = tt
AllSlots-mem ss (p ∷ ps) h =
    (h p (ground arith), AllSlots-mem ss ps (λ q m. h q (ground (arith, m))))
