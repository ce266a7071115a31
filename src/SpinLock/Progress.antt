-- ===== src/SpinLock/Progress.antt =====
-- A thread in `EnterWriteLock` of FastSpinLock.hpp can always get the lock.
use windows_iocp_network.Base.{
  ℕ, zero, suc, ◌<◌, ◌≤◌, ◌≡◌, refl, sym, ap, subst, ◌∙◌, Bool, true, false, Option, none, some,
  List, [], ◌∷◌, ◌++◌, arith, ltb, ◌⊎◌, inl, inr, Bool-cases, total, total-middle,
}
use windows_iocp_network.SpinLock.{
  Pc, idle, write_spin, write_add, write_drain, write_retreat, writing, read_spin, read_check,
  add_alone, retreat, drain_done, leave_write, write_flag, read_bits, remove_writer,
}
use windows_iocp_network.SpinLock.System.{System, step, Reach, here, next, fresh}
use windows_iocp_network.SpinLock.Exclusion.{
  max_writers, counted, Reach-Inv, free_iff, spinner_acquires,
}

-- Where the thread of a number stands.
abbrev pub place : ℕ → List Pc → Option Pc
place k [] = none
place zero (p ∷ ps) = some p
place (suc k) (p ∷ ps) = place k ps

abbrev pub is_entering : Pc → Bool
is_entering write_spin = true
is_entering write_add = true
is_entering write_drain = true
is_entering write_retreat = true
is_entering _ = false

pub Reach-trans : {s t u : System} → Reach s t → Reach t u → Reach s u
Reach-trans r here = r
Reach-trans r (next q st) = next (Reach-trans r q) st

place-split :
    (k : ℕ) (ps : List Pc) {p : Pc}
    → place k ps ≡ some p
    → (before : List Pc) × (after : List Pc) × (ps ≡ before ++ p ∷ after)
      × ((q : Pc) → place k (before ++ q ∷ after) ≡ some q)
place-split k [] e = cc
place-split zero (x ∷ ps) {p} e = let same : x ≡ p = cc in ([], ps, rw same refl, λ q. refl)
place-split (suc k) (x ∷ ps) e =
    let (before, after, same, there) = place-split k ps e in
    (x ∷ before, after, ap (◌∷◌ x) same, there)

-- The places of the others stay when a thread moves.
place-other :
    (k : ℕ) (before after : List Pc) (p p' q : Pc)
    → place k (before ++ p ∷ after) ≡ some q
    → counted p ≡ 1
    → counted q ≡ 0
    → place k (before ++ p' ∷ after) ≡ some q
place-other zero [] after p p' q e c d =
    let same : p ≡ q = cc in absurd (omega (arith, c, d, ap counted same))
place-other (suc k) [] after p p' q e c d = e
place-other zero (x ∷ before) after p p' q e c d = e
place-other (suc k) (x ∷ before) after p p' q e c d = place-other k before after p p' q e c d

counted-le : (p : Pc) → counted p ≤ 1
counted-le idle = omega arith
counted-le write_spin = omega arith
counted-le write_add = omega arith
counted-le write_drain = omega arith
counted-le write_retreat = omega arith
counted-le writing = omega arith
counted-le read_spin = omega arith
counted-le read_check = omega arith

some_counted :
    (ps : List Pc)
    → 0 < total counted ps
    → (before : List Pc) × (p : Pc) × (after : List Pc) × (ps ≡ before ++ p ∷ after)
      × (counted p ≡ 1)
some_counted [] h = absurd (omega (arith, h))
some_counted (p ∷ ps) h = elim (Bool-cases (ltb 0 (counted p))) [
  | inl this ↦ ([], p, ps, refl, ground (arith, this, counted-le p))
  | inr other ↦
      let (before, q, after, same, one) = some_counted ps (ground (arith, other, h)) in
      (p ∷ before, q, after, ap (◌∷◌ p) same, one)
]

abbrev at : ℕ → List Pc → System
at flag ps = record { flag = flag; threads = ps }

-- A thread that has added to the flag can take its part back, by its own moves.
settles :
    {n : ℕ} (flag : ℕ) (before : List Pc) (p : Pc) (after : List Pc)
    → n ≤ max_writers
    → Reach (fresh n) (at flag (before ++ p ∷ after))
    → counted p ≡ 1
    → (flag' : ℕ) × (p' : Pc) × (counted p' ≡ 0)
      × Reach (at flag (before ++ p ∷ after)) (at flag' (before ++ p' ∷ after))
settles flag before write_drain after few r c =
    let drained : read_bits flag ≡ 0 = omega (arith, Reach-Inv few r) in
    (
      remove_writer flag,
      idle,
      refl,
      next (next here (step before after (drain_done drained))) (step before after leave_write),
    )
settles flag before write_retreat after few r c =
    (remove_writer flag, write_spin, refl, next here (step before after retreat))
settles flag before writing after few r c =
    (remove_writer flag, idle, refl, next here (step before after leave_write))
settles flag before idle after few r c = cc
settles flag before write_spin after few r c = cc
settles flag before write_add after few r c = cc
settles flag before read_spin after few r c = cc
settles flag before read_check after few r c = cc

-- All others can, one after another, while a thread that has not added to the flag stands still.
quiets :
    {n : ℕ} (rounds flag : ℕ) (ps : List Pc) (k : ℕ) (q : Pc)
    → n ≤ max_writers
    → Reach (fresh n) (at flag ps)
    → total counted ps ≡ rounds
    → place k ps ≡ some q
    → counted q ≡ 0
    → (flag' : ℕ) × (ps' : List Pc) × Reach (at flag ps) (at flag' ps')
      × (total counted ps' ≡ 0)
      × (place k ps' ≡ some q)
quiets zero flag ps k q few r c e d = (flag, ps, here, c, e)
quiets {n} (suc rounds) flag ps k q few r c e d =
    let (before, p, after, same, one) = some_counted ps (omega (arith, c)) in
    let r₁ = subst (λ xs. Reach (fresh n) (at flag xs)) same r in
    let (flag₁, p₁, settled, r₂) = settles flag before p after few r₁ one in
    let fewer : total counted (before ++ p₁ ∷ after) ≡ rounds = omega (
      arith,
      c,
      ap (total counted) same,
      one,
      settled,
      total-middle counted before p after,
      total-middle counted before p₁ after,
    ) in
    let stays =
      place-other k before after p p₁ q (subst (λ xs. place k xs ≡ some q) same e) one d in
    let (flag₂, ps₂, r₃, quiet, there) =
      quiets rounds flag₁ (before ++ p₁ ∷ after) k q few (Reach-trans r₁ r₂) fewer stays d in
    (
      flag₂,
      ps₂,
      subst (λ xs. Reach (at flag xs) (at flag₂ ps₂)) (sym same) (Reach-trans r₂ r₃),
      quiet,
      there,
    )

-- The lock is free, and the thread has not added to it.
acquires_quiet :
    {n : ℕ} (flag : ℕ) (ps : List Pc) (k : ℕ)
    → n ≤ max_writers
    → Reach (fresh n) (at flag ps)
    → total counted ps ≡ 0
    → (place k ps ≡ some write_spin) ⊎ (place k ps ≡ some write_add)
    → (t : System) × Reach (at flag ps) t × (place k t.threads ≡ some writing)
acquires_quiet {n} flag ps k few r quiet (inl e) =
    let (before, after, same, there) = place-split k ps e in
    let r₁ = subst (λ xs. Reach (fresh n) (at flag xs)) same r in
    let got = spinner_acquires before after few r₁ (ap (total counted) (sym same) ∙ quiet) in
    (
      at write_flag (before ++ writing ∷ after),
      subst (λ xs. Reach (at flag xs) (at write_flag (before ++ writing ∷ after))) (sym same) got,
      there writing,
    )
acquires_quiet {n} flag ps k few r quiet (inr e) =
    let (before, after, same, there) = place-split k ps e in
    let r₁ = subst (λ xs. Reach (fresh n) (at flag xs)) same r in
    let zeroed : flag ≡ 0 = (free_iff few r).1 quiet in
    let held = at write_flag (before ++ writing ∷ after) in
    let got : Reach (at 0 (before ++ write_add ∷ after)) held =
      next (next here (step before after (add_alone refl))) (step before after (drain_done refl)) in
    (
      at write_flag (before ++ writing ∷ after),
      subst (λ xs. Reach (at flag xs) held) (sym same)
          (subst (λ f. Reach (at f (before ++ write_add ∷ after)) held) (sym zeroed) got),
      there writing,
    )

-- After the others, from the two places before a thread has added to the flag.
acquires :
    (n : ℕ) (flag : ℕ) (ps : List Pc) (k : ℕ) (q : Pc)
    → n ≤ max_writers
    → Reach (fresh n) (at flag ps)
    → place k ps ≡ some q
    → (q ≡ write_spin) ⊎ (q ≡ write_add)
    → (t : System) × Reach (at flag ps) t × (place k t.threads ≡ some writing)
acquires n flag ps k q few r e w =
    let unadded : counted q ≡ 0 = elim w [ inl h ↦ ap counted h | inr h ↦ ap counted h ] in
    let (flag', ps', r', quiet, there) =
      quiets (total counted ps) flag ps k q few r refl e unadded in
    let (t, r'', writes) =
      acquires_quiet flag' ps' k few (Reach-trans r r') quiet
        (elim w [ inl h ↦ inl (there ∙ ap some h) | inr h ↦ inr (there ∙ ap some h) ]) in
    (t, Reach-trans r' r'', writes)

enters :
    (n : ℕ) (flag : ℕ) (before : List Pc) (q : Pc) (after : List Pc) (k : ℕ)
    → n ≤ max_writers
    → Reach (fresh n) (at flag (before ++ q ∷ after))
    → ((p : Pc) → place k (before ++ p ∷ after) ≡ some p)
    → is_entering q ≡ true
    → (t : System) × Reach (at flag (before ++ q ∷ after)) t × (place k t.threads ≡ some writing)
enters n flag before write_spin after k few r there w =
    acquires n flag _ k write_spin few r (there write_spin) (inl refl)
enters n flag before write_add after k few r there w =
    acquires n flag _ k write_add few r (there write_add) (inr refl)
enters n flag before write_drain after k few r there w =
    let drained : read_bits flag ≡ 0 = omega (arith, Reach-Inv few r) in
    (
      at flag (before ++ writing ∷ after),
      next here (step before after (drain_done drained)),
      there writing,
    )
enters n flag before write_retreat after k few r there w =
    let r₁ = next here (step before after retreat) in
    let (t, r₂, writes) =
      acquires n (remove_writer flag) (before ++ write_spin ∷ after) k write_spin few
        (Reach-trans r r₁) (there write_spin) (inl refl) in
    (t, Reach-trans r₁ r₂, writes)
enters n flag before idle after k few r there w = cc
enters n flag before writing after k few r there w = cc
enters n flag before read_spin after k few r there w = cc
enters n flag before read_check after k few r there w = cc

-- No deadlock: with at most 2048 threads on a lock that was fresh, at any moment of any
-- interleaving, each thread that is anywhere in `EnterWriteLock` can still get the lock: there are
-- further moves of the threads after which it holds it.
pub enterer_acquires :
    (n k : ℕ) (q : Pc) (s : System)
    → n ≤ max_writers
    → Reach (fresh n) s
    → place k s.threads ≡ some q
    → is_entering q ≡ true
    → (t : System) × Reach s t × (place k t.threads ≡ some writing)
enterer_acquires n k q s few r e w =
    let (before, after, same, there) = place-split k s.threads e in
    let r₁ = subst (λ xs. Reach (fresh n) (at s.flag xs)) same r in
    let (t, r₂, writes) = enters n s.flag before q after k few r₁ there w in
    (t, subst (λ xs. Reach (at s.flag xs) t) (sym same) r₂, writes)
