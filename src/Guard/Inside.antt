-- ===== src/Guard/Inside.antt =====
-- Which threads are inside their guard.
use windows_iocp_network.Base.{
  ℕ, zero, suc, ◌≤◌, ◌≡◌, refl, ap, List, [], ◌∷◌, ◌++◌, arith, total, replicate,
}
use windows_iocp_network.Guard.{Lock, IsExclusive, Body, Place, outside, entering, inside, reading}
use windows_iocp_network.Guard.Atomic.{Runs}

module _ {Flag Pc Call Local Data Result : Type 0} (lock : Lock Flag Pc)
    (body : Body Call Local Data Result) where
  -- The lock's part of the system.
  abbrev pub lock_place : Place lock body → Pc
  lock_place outside = lock.idle
  lock_place (entering c p) = p
  lock_place (inside c l) = lock.holding
  lock_place (reading p) = p

  abbrev pub lock_places : List (Place lock body) → List Pc
  lock_places [] = []
  lock_places (p ∷ ps) = lock_place p ∷ lock_places ps

  pub lock_places-middle :
      (before after : List (Place lock body)) (p : Place lock body)
      → lock_places (before ++ p ∷ after) ≡ lock_places before ++ lock_place p ∷ lock_places after
  lock_places-middle [] after p = refl
  lock_places-middle (q ∷ before) after p =
      ap (◌∷◌ (lock_place q)) (lock_places-middle before after p)

  pub lock_places-replicate : (n : ℕ) → lock_places (replicate n outside) ≡ replicate n lock.idle
  lock_places-replicate zero = refl
  lock_places-replicate (suc n) = ap (◌∷◌ lock.idle) (lock_places-replicate n)

  abbrev pub is_inside : Place lock body → ℕ
  is_inside (inside c l) = 1
  is_inside _ = 0

  pub inside-le-holders :
      (limit : ℕ) (x : IsExclusive lock limit) (ps : List (Place lock body))
      → total is_inside ps ≤ total x.holders (lock_places ps)
  inside-le-holders limit x [] = omega arith
  inside-le-holders limit x (outside ∷ ps) = omega (arith, inside-le-holders limit x ps)
  inside-le-holders limit x (entering c p ∷ ps) = omega (arith, inside-le-holders limit x ps)
  inside-le-holders limit x (inside c l ∷ ps) =
      omega (arith, x.holding-counts, inside-le-holders limit x ps)
  inside-le-holders limit x (reading p ∷ ps) = omega (arith, inside-le-holders limit x ps)

  -- Each call that is inside has done its accesses alone, from `d` on.
  abbrev pub IsRunning : Data → Data → Place lock body → Type 0
  IsRunning d d' (inside c l) = Runs body c d l d'
  IsRunning d d' _ = Unit {0}

  abbrev pub AllRunning : Data → Data → List (Place lock body) → Type 0
  AllRunning d d' [] = Unit {0}
  AllRunning d d' (p ∷ ps) = IsRunning d d' p × AllRunning d d' ps

  -- Where nobody is inside, nothing is asked.
  pub none_inside-AllRunning :
      (d d' : Data) (ps : List (Place lock body)) → total is_inside ps ≡ 0 → AllRunning d d' ps
  none_inside-AllRunning d d' [] h = tt
  none_inside-AllRunning d d' (outside ∷ ps) h = (tt, none_inside-AllRunning d d' ps (omega arith))
  none_inside-AllRunning d d' (entering c p ∷ ps) h =
      (tt, none_inside-AllRunning d d' ps (omega arith))
  none_inside-AllRunning d d' (inside c l ∷ ps) h = absurd (omega arith)
  none_inside-AllRunning d d' (reading p ∷ ps) h =
      (tt, none_inside-AllRunning d d' ps (omega arith))

  pub idle-IsRunning : (d d' : Data) (p : Place lock body) → is_inside p ≡ 0 → IsRunning d d' p
  idle-IsRunning d d' outside h = tt
  idle-IsRunning d d' (entering c p) h = tt
  idle-IsRunning d d' (inside c l) h = absurd (omega (arith, h))
  idle-IsRunning d d' (reading p) h = tt

  pub AllRunning-middle :
      (d d' : Data) (before after : List (Place lock body)) (p : Place lock body)
      → AllRunning d d' (before ++ p ∷ after)
      → AllRunning d d' before × IsRunning d d' p × AllRunning d d' after
  AllRunning-middle d d' [] after p (r, rs) = (tt, r, rs)
  AllRunning-middle d d' (q ∷ before) after p (r, rs) =
      let (xs, y, zs) = AllRunning-middle d d' before after p rs in ((r, xs), y, zs)

  pub AllRunning-append :
      (d d' : Data) (before after : List (Place lock body)) (p : Place lock body)
      → AllRunning d d' before
      → IsRunning d d' p
      → AllRunning d d' after
      → AllRunning d d' (before ++ p ∷ after)
  AllRunning-append d d' [] after p xs y zs = (y, zs)
  AllRunning-append d d' (q ∷ before) after p (x, xs) y zs =
      (x, AllRunning-append d d' before after p xs y zs)
