-- ===== src/MemoryPool/Concurrent/Threads.antt =====
-- What all threads in MemoryPool/Concurrent rely on together.
use windows_iocp_network.MemoryPool.Concurrent.Keeps.{Kept, access-Kept}
use windows_iocp_network.Base.{
  ℕ, ◌<◌, ◌≤◌, subst, Bool, List, [], ◌∷◌, ◌++◌, arith, ltb, inl, inr, total, Bool-cases, ◌≡◌, true,
  Returns, Returns-map,
}
use windows_iocp_network.MemoryPool.{MemoryPool}
use windows_iocp_network.MemoryPool.Inv.{IsFresh, IsValid}
use windows_iocp_network.MemoryPool.Concurrent.{
  Local, looks, pops, asserts, mallocs, mallocs_big, counts, attaches, returned, marks, exchanges,
  checks, frees, pushes, uncounts, ended, has, asks, access, Place, outside, inside, owns,
}
use windows_iocp_network.MemoryPool.Concurrent.Relies.{At, IsSame, At-same}

At-IsFresh :
    {live : ℕ → Bool} {m : MemoryPool} (k : ℕ) (l : Local)
    → 0 < has k l
    → At live m l
    → IsFresh live m k
At-IsFresh k (looks real) h a = absurd (omega (arith, h))
At-IsFresh k (pops real i) h a = absurd (omega (arith, h))
At-IsFresh k (mallocs real i) h a = absurd (omega (arith, h))
At-IsFresh k (mallocs_big real) h a = absurd (omega (arith, h))
At-IsFresh k (uncounts i) h a = absurd (omega (arith, h))
At-IsFresh k ended h a = absurd (omega (arith, h))
At-IsFresh {live} {m} k (asserts real i b) h (f, _, _) =
    subst (IsFresh live m) (ground (arith, h)) f
At-IsFresh {live} {m} k (counts real i b) h (f, _) = subst (IsFresh live m) (ground (arith, h)) f
At-IsFresh {live} {m} k (attaches real b) h (f, _) = subst (IsFresh live m) (ground (arith, h)) f
At-IsFresh {live} {m} k (returned ptr) h (f, _) = subst (IsFresh live m) (ground (arith, h)) f
At-IsFresh {live} {m} k (marks b extra) h (f, _) = subst (IsFresh live m) (ground (arith, h)) f
At-IsFresh {live} {m} k (exchanges b) h (f, _) = subst (IsFresh live m) (ground (arith, h)) f
At-IsFresh {live} {m} k (checks b real) h (f, _, _) = subst (IsFresh live m) (ground (arith, h)) f
At-IsFresh {live} {m} k (frees b) h f = subst (IsFresh live m) (ground (arith, h)) f
At-IsFresh {live} {m} k (pushes b i) h (f, _) = subst (IsFresh live m) (ground (arith, h)) f

pub has-le : (k : ℕ) (l : Local) → has k l ≤ 1
has-le k (looks real) = omega arith
has-le k (pops real i) = omega arith
has-le k (mallocs real i) = omega arith
has-le k (mallocs_big real) = omega arith
has-le k (uncounts i) = omega arith
has-le k ended = omega arith
has-le k (asserts real i b) = ground arith
has-le k (counts real i b) = ground arith
has-le k (attaches real b) = ground arith
has-le k (returned ptr) = ground arith
has-le k (marks b extra) = ground arith
has-le k (exchanges b) = ground arith
has-le k (checks b real) = ground arith
has-le k (frees b) = ground arith
has-le k (pushes b i) = ground arith

abbrev pub PlaceAt : (ℕ → Bool) → MemoryPool → Place → Type 0
PlaceAt live m outside = Unit {0}
PlaceAt live m (inside l) = At live m l

abbrev pub AllAt : (ℕ → Bool) → MemoryPool → List Place → Type 0
AllAt live m [] = Unit {0}
AllAt live m (p ∷ ps) = PlaceAt live m p × AllAt live m ps

place_same :
    {live live' : ℕ → Bool} {m m' : MemoryPool} (p : Place)
    → ((k : ℕ) → 0 < owns k p → IsSame live live' m m' k)
    → PlaceAt live m p
    → PlaceAt live' m' p
place_same outside s a = tt
place_same (inside l) s a = At-same l s a

pub all_same :
    {live live' : ℕ → Bool} {m m' : MemoryPool} (ps : List Place)
    → ((k : ℕ) → 0 < total (owns k) ps → IsSame live live' m m' k)
    → AllAt live m ps
    → AllAt live' m' ps
all_same [] s a = tt
all_same (p ∷ ps) s (a, rest) = (
  place_same p (λ k h. s k (omega (arith, h))) a,
  all_same ps (λ k h. s k (omega (arith, h))) rest,
)

pub place-IsFresh :
    {live : ℕ → Bool} {m : MemoryPool} (k : ℕ) (p : Place)
    → 0 < owns k p
    → PlaceAt live m p
    → IsFresh live m k
place-IsFresh k outside h a = absurd (omega (arith, h))
place-IsFresh k (inside l) h a = At-IsFresh k l h a

pub all-IsFresh :
    {live : ℕ → Bool} {m : MemoryPool} (k : ℕ) (ps : List Place)
    → 0 < total (owns k) ps
    → AllAt live m ps
    → IsFresh live m k
all-IsFresh k [] h a = absurd (omega (arith, h))
all-IsFresh k (p ∷ ps) h (a, rest) = elim (Bool-cases (ltb 0 (owns k p))) [
  | inl own ↦ place-IsFresh k p (ground (arith, own)) a
  | inr other ↦ all-IsFresh k ps (ground (arith, other, h)) rest
]

pub AllAt-middle :
    (live : ℕ → Bool) (m : MemoryPool) (before after : List Place) (p : Place)
    → AllAt live m (before ++ p ∷ after)
    → AllAt live m before × PlaceAt live m p × AllAt live m after
AllAt-middle live m [] after p (a, rest) = (tt, a, rest)
AllAt-middle live m (q ∷ before) after p (a, rest) =
    let (xs, y, zs) = AllAt-middle live m before after p rest in ((a, xs), y, zs)

pub AllAt-append :
    (live : ℕ → Bool) (m : MemoryPool) (before after : List Place) (p : Place)
    → AllAt live m before
    → PlaceAt live m p
    → AllAt live m after
    → AllAt live m (before ++ p ∷ after)
AllAt-append live m [] after p xs y zs = (y, zs)
AllAt-append live m (q ∷ before) after p (x, xs) y zs =
    (x, AllAt-append live m before after p xs y zs)

asks-Returns :
    (l : Local) (block : ℕ) (m : MemoryPool)
    → asks l ≡ true
    → Returns (λ _. Unit) (access block l m)
unfolding access
asks-Returns (mallocs real i) block m e = tt
asks-Returns (mallocs_big real) block m e = tt
asks-Returns (looks real) block m e = cc
asks-Returns (pops real i) block m e = cc
asks-Returns (asserts real i h) block m e = cc
asks-Returns (counts real i h) block m e = cc
asks-Returns (attaches real h) block m e = cc
asks-Returns (returned ptr) block m e = cc
asks-Returns (marks h extra) block m e = cc
asks-Returns (exchanges h) block m e = cc
asks-Returns (checks h real) block m e = cc
asks-Returns (frees h) block m e = cc
asks-Returns (pushes h i) block m e = cc
asks-Returns (uncounts i) block m e = cc
asks-Returns ended block m e = cc

-- The next access of a thread returns, whatever block `_aligned_malloc` gives.
pub access-Returns :
    (block : ℕ) (l : Local) {live : ℕ → Bool} {m : MemoryPool}
    → IsValid live m
    → At live m l
    → Returns (λ _. Unit) (access block l m)
access-Returns block l {live} {m} v a = elim (Bool-cases (asks l)) [
  | inl new ↦ asks-Returns l block m new
  | inr old ↦
      Returns-map (λ r. Kept block live m r.1 l r.0) (λ _. Unit) (access block l m) (λ r k. tt)
        (access-Kept block l v a (λ q. ground (arith, old, q)))
]
