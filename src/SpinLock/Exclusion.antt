-- ===== src/SpinLock/Exclusion.antt =====
-- Mutual exclusion of the write lock of FastSpinLock.hpp.
use windows_iocp_network.Base.{
  total, total-middle, length-middle, total-replicate, ℕ, ◌+◌, ◌*◌, ◌≤◌, ◌≡◌, refl, ◌↔◌, List, [],
  ◌∷◌, ◌++◌, arith, length, length-replicate,
}
use windows_iocp_network.SpinLock.{
  Pc, idle, write_spin, write_drain, write_retreat, writing, Move, enter_write, spin_busy,
  spin_free, add_alone, add_contended, retreat, drain_busy, drain_done, leave_write, enter_read,
  read_busy, read_free, read_again, write_flag, read_bits,
}
use windows_iocp_network.SpinLock.System.{System, Step, step, Reach, here, next, fresh}

-- Up to here a sum of the flags never reads as one flag again.
abbrev pub max_writers : ℕ
max_writers = 2048

-- Threads that have added LF_WRITE_FLAG and not taken it back.
abbrev pub counted : Pc → ℕ
counted write_drain = 1
counted write_retreat = 1
counted writing = 1
counted _ = 0

-- Threads that have seen their own flag alone.
abbrev pub owner : Pc → ℕ
owner write_drain = 1
owner writing = 1
owner _ = 0

pub record Inv (n : ℕ) (s : System) : Type 0 where
  pub size : length s.threads ≡ n
  pub flag_counts : s.flag ≡ write_flag * total counted s.threads
  pub one_owner : total owner s.threads ≤ 1

total-counted-le : (ps : List Pc) → total counted ps ≤ length ps
total-counted-le [] = omega arith
total-counted-le (p ∷ ps) = ground (arith, total-counted-le ps)

owner-le-counted : (ps : List Pc) → total owner ps ≤ total counted ps
owner-le-counted [] = omega arith
owner-le-counted (p ∷ ps) = ground (arith, owner-le-counted ps)

-- One move, with the other threads summed up: `c` of them counted, `o` of them owners.
Move-Sums :
    {flag flag' : ℕ} {p p' : Pc} (c o : ℕ)
    → Move flag p flag' p'
    → flag ≡ write_flag * (c + counted p)
    → c + 1 ≤ max_writers
    → o ≤ c
    → o + owner p ≤ 1
    → (flag' ≡ write_flag * (c + counted p')) × (o + owner p' ≤ 1)
Move-Sums c o enter_write f m l w = ground arith
Move-Sums c o (spin_busy h) f m l w = ground arith
Move-Sums c o (spin_free h) f m l w = ground arith
Move-Sums c o (add_alone h) f m l w = ground arith
Move-Sums c o (add_contended h) f m l w = ground arith
Move-Sums c o retreat f m l w = ground arith
Move-Sums c o (drain_busy h) f m l w = ground arith
Move-Sums c o (drain_done h) f m l w = ground arith
Move-Sums c o leave_write f m l w = ground arith
Move-Sums c o enter_read f m l w = ground arith
Move-Sums c o (read_busy h) f m l w = ground arith
Move-Sums c o (read_free h) f m l w = ground arith
Move-Sums c o read_again f m l w = ground arith

pub Step-Inv : {n : ℕ} {s t : System} → n ≤ max_writers → Step s t → Inv n s → Inv n t
Step-Inv few (step before after {p} {p'} mv) v = omega (
  arith,
  Move-Sums (total counted before + total counted after) (total owner before + total owner after)
      mv,
  total-middle counted before p after,
  total-middle counted before p' after,
  total-middle owner before p after,
  total-middle owner before p' after,
  length-middle before p after,
  length-middle before p' after,
  total-counted-le before,
  total-counted-le after,
  owner-le-counted before,
  owner-le-counted after,
)

pub Reach-Inv : {n : ℕ} {s : System} → n ≤ max_writers → Reach (fresh n) s → Inv n s
Reach-Inv {n} few here = record {
  size = length-replicate n idle;
  flag_counts = omega (arith, total-replicate counted n idle refl);
  one_owner = omega (arith, total-replicate owner n idle refl);
}
Reach-Inv few (next r st) = Step-Inv few st (Reach-Inv few r)

-- With at most 2048 threads that start idle on a fresh lock, while one thread holds the write lock
-- no other holds it or has won it; and the count of readers, for which a winner waits, is 0.
pub mutual_exclusion :
    {n flag : ℕ} (before after : List Pc)
    → n ≤ max_writers
    → Reach (fresh n) (record { flag = flag; threads = before ++ writing ∷ after })
    → (total owner before ≡ 0) × (total owner after ≡ 0) × (read_bits flag ≡ 0)
mutual_exclusion before after few r =
    omega (arith, Reach-Inv few r, total-middle owner before writing after)

-- With at most 2048 threads, a lock that was fresh reads 0 if and only if no thread has added to
-- it.
pub free_iff :
    {n : ℕ} {s : System}
    → n ≤ max_writers
    → Reach (fresh n) s
    → (s.flag ≡ 0) ↔ (total counted s.threads ≡ 0)
free_iff few r = let v = Reach-Inv few r in (λ e. omega arith, λ e. omega arith)

-- With at most 2048 threads on a lock that was fresh, when nobody has added to the flag, a thread
-- that waits at the spin of `EnterWriteLock` gets the lock by its own next three steps.
pub spinner_acquires :
    {n flag : ℕ} (before after : List Pc)
    → n ≤ max_writers
    → Reach (fresh n) (record { flag = flag; threads = before ++ write_spin ∷ after })
    → total counted (before ++ write_spin ∷ after) ≡ 0
    → Reach
        (record { flag = flag; threads = before ++ write_spin ∷ after })
        (record { flag = write_flag; threads = before ++ writing ∷ after })
spinner_acquires {n} {flag} before after few r quiet =
    let zeroed : flag ≡ 0 = (free_iff few r).1 quiet in
    rw zeroed (
      next
        (next (next here (step before after (spin_free refl))) (step before after (add_alone refl)))
        (step before after (drain_done refl)))
