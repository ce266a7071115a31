-- ===== src/SpinLock/Overflow.antt =====
-- The bound of the write lock is sharp: with one thread more the count of writers overflows.
use windows_iocp_network.Base.{
  total, total-middle, ℕ, zero, suc, ◌+◌, ◌-◌, ◌*◌, ◌≤◌, ◌<◌, ◌≡◌, refl, sym, ap, ◌∙◌, List, [],
  ◌∷◌, ◌++◌, arith, replicate,
}
use mathlib.Core.Path.{subst, subst₂}
use mathlib.Core.List.{append_assoc}
use windows_iocp_network.SpinLock.{
  Pc, idle, write_add, write_retreat, writing, enter_write, spin_free, add_alone, add_contended,
  drain_done, write_flag,
}
use windows_iocp_network.SpinLock.System.{System, step, Reach, here, next, fresh}
use windows_iocp_network.SpinLock.Exclusion.{max_writers, owner}

abbrev at_flag : ℕ → List Pc → System
at_flag flag ps = record { flag = flag; threads = ps }

retyped :
    {s : System} {flag flag' : ℕ} {ps qs : List Pc}
    → flag ≡ flag'
    → ps ≡ qs
    → Reach s (at_flag flag ps)
    → Reach s (at_flag flag' qs)
retyped {s} e f r = subst₂ (λ k ps. Reach s (at_flag k ps)) e f r

-- The next thread joins those that are done.
shift : (done : List Pc) (p : Pc) (ps : List Pc) → (done ++ p ∷ []) ++ ps ≡ done ++ p ∷ ps
shift done p ps = append_assoc done (p ∷ []) ps

-- The first `n` idle threads pass the spin before one of them adds.
all_pass :
    (n : ℕ) (done rest : List Pc) {s : System}
    → Reach s (at_flag 0 (done ++ (replicate n idle ++ rest)))
    → Reach s (at_flag 0 (done ++ (replicate n write_add ++ rest)))
all_pass zero done rest r = r
all_pass (suc n) done rest r =
    let others = replicate n idle ++ rest in
    let r' = next (next r (step done others enter_write)) (step done others (spin_free refl)) in
    retyped refl (shift done write_add (replicate n write_add ++ rest)) (
      all_pass n (done ++ write_add ∷ []) rest
        (retyped refl (sym (shift done write_add others)) r'))

-- With `c` flags added, the next `n` threads add theirs and see that they are not alone.
all_contend :
    (n c : ℕ) (done rest : List Pc) {s : System}
    → 1 ≤ c
    → c + n ≤ max_writers
    → Reach s (at_flag (write_flag * c) (done ++ (replicate n write_add ++ rest)))
    → Reach s (at_flag (write_flag * (c + n)) (done ++ (replicate n write_retreat ++ rest)))
all_contend zero c done rest pos few r = retyped (omega arith) refl r
all_contend (suc n) c done rest pos few r =
    let others = replicate n write_add ++ rest in
    let r' = next r (step done others (add_contended (omega arith))) in
    retyped (omega arith) (shift done write_retreat (replicate n write_retreat ++ rest)) (
      all_contend n (c + 1) (done ++ write_retreat ∷ []) rest (omega arith) (omega arith)
        (retyped (omega arith) (sym (shift done write_retreat others)) r'))

replicate-add : (m n : ℕ) (p : Pc) → replicate (m + n) p ≡ replicate m p ++ replicate n p
replicate-add zero n p = ap (λ k. replicate k p) (omega arith)
replicate-add (suc m) n p =
    ap (λ k. replicate k p) {x = suc m + n} {y = suc (m + n)} (omega arith)
    ∙ ap (◌∷◌ p) (replicate-add m n p)

-- A second winner: the flag of the 2049th thread is the only one that the mask still shows.
two_winners :
    (k : ℕ) (rest : List Pc) {s : System}
    → k + 1 ≡ max_writers
    → Reach s (at_flag 0 (write_add ∷ (replicate k write_add ++ write_add ∷ rest)))
    → Reach s (
        at_flag
          (write_flag * (max_writers + 1))
          (writing ∷ (replicate k write_retreat ++ writing ∷ rest)))
two_winners k rest {s} e r =
    let contenders = replicate k write_add ++ write_add ∷ rest in
    let first : Reach s (at_flag (write_flag * 1) (writing ∷ contenders)) =
      next (next r (step [] contenders (add_alone refl))) (step [] contenders (drain_done refl)) in
    let before = writing ∷ replicate k write_retreat in
    let full : Reach s (at_flag (write_flag * max_writers) (before ++ write_add ∷ rest)) =
      retyped (omega arith) refl
        (all_contend k 1 (writing ∷ []) (write_add ∷ rest) (omega arith) (omega arith) first) in
    retyped (omega arith) refl
      (next (next full (step before rest (add_alone refl))) (step before rest (drain_done refl)))

module _ (k extra : ℕ) (e : k + 1 ≡ max_writers) where
  others : List Pc
  others = replicate extra idle

  idle_threads : replicate (k + 2 + extra) idle ≡ idle ∷ (replicate k idle ++ idle ∷ others)
  unfolding others
  idle_threads =
      ap (λ m. replicate m idle) {x = k + 2 + extra} {y = suc (k + suc extra)} (omega arith)
      ∙ ap (◌∷◌ idle) (replicate-add k (suc extra) idle)

  all_ready :
      Reach
        (fresh (k + 2 + extra))
        (at_flag 0 (write_add ∷ (replicate k write_add ++ write_add ∷ others)))
  all_ready =
      let start : Reach (fresh (k + 2 + extra))
          (at_flag 0 (idle ∷ (replicate k idle ++ idle ∷ others))) =
        retyped refl idle_threads here in
      let before = write_add ∷ replicate k write_add in
      let most = all_pass (suc k) [] (idle ∷ others) start in
      next (next most (step before others enter_write)) (step before others (spin_free refl))

  pub two_owners : (s : System) × Reach (fresh (k + 2 + extra)) s × (2 ≤ total owner s.threads)
  two_owners = (
    _,
    two_winners k others e all_ready,
    omega (arith, total-middle owner (replicate k write_retreat) writing others),
  )

-- With any number of threads above 2048 on a fresh lock, two of them can own the lock at once, or
-- have won it.
pub too_many_threads :
    (n : ℕ) → max_writers < n → (s : System) × Reach (fresh n) s × (2 ≤ total owner s.threads)
too_many_threads n h =
    subst (λ m. (s : System) × Reach (fresh m) s × (2 ≤ total owner s.threads)) (omega arith)
      (two_owners (max_writers - 1) (n - (max_writers + 1)) refl)
