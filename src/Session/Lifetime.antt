-- ===== src/Session/Lifetime.antt =====
-- `AddRef` and `ReleaseRef` of Session.hpp (win-iocp-mssql-usage) on many threads: the interlocked
-- count one access at a time, with the assertion and the test of its result as accesses of their
-- own.
mod Tests
use windows_iocp_network.Base.{
  ℕ, zero, suc, ◌+◌, ◌<◌, ◌≤◌, ◌≡◌, refl, sym, List, [], ◌∷◌, ◌++◌, arith, ◌==◌, if◌then◌else◌,
  long_limit, total, total-middle, total-replicate, replicate,
}

-- Where a thread stands, with the references that it holds: outside both methods; in `AddRef`, with
-- the result of `InterlockedIncrement`; in `ReleaseRef`, with that of `InterlockedDecrement`; and
-- before `OnRelease`.
pub data Pc : Type 0 where
  holds : ℕ → Pc
  adds releases : ℕ → ℕ → Pc
  notifies : ℕ → Pc

-- `parked`: the references of the contexts whose operation the kernel holds; `firsts`, how often
-- the count has gone from 0 to 1.
pub record Lives : Type 0 where
  pub count : ℕ
  pub parked : ℕ
  pub firsts : ℕ
  pub on_releases : ℕ
  pub threads : List Pc

-- One access of one thread: the count, the parked references, the changes of the count from 0 to 1
-- and the calls of `OnRelease`, before and after. Any thread may take a reference at any time, as
-- the requests make contexts of a bare `this`; it gives up one that it has. A reference goes with a
-- context from the thread that posts it to the one that dequeues it. A failed assertion ends the
-- process; one with a count of 0 before `InterlockedDecrement` would fail too.
pub data Move (count parked firsts calls : ℕ) : Pc → ℕ → ℕ → ℕ → ℕ → Pc → Type 0 where
  increments :
      (k : ℕ)
      → Move count parked firsts calls
          (holds k)
          (suc count)
          parked
          (if count == 0 then suc firsts else firsts)
          calls
          (adds k (suc count))
  added :
      (k ret : ℕ)
      → ret < long_limit
      → Move count parked firsts calls (adds k ret) count parked firsts calls (holds (suc k))
  decrements :
      (k ret : ℕ)
      → count ≡ suc ret
      → Move count parked firsts calls (holds (suc k)) ret parked firsts calls (releases k ret)
  kept :
      (k ret : ℕ)
      → suc ret < long_limit
      → Move count parked firsts calls (releases k (suc ret)) count parked firsts calls (holds k)
  last :
      (k : ℕ) → Move count parked firsts calls (releases k 0) count parked firsts calls (notifies k)
  calls_on_release :
      (k : ℕ)
      → Move count parked firsts calls (notifies k) count parked firsts (suc calls) (holds k)
  parks :
      (k : ℕ)
      → Move count parked firsts calls (holds (suc k)) count (suc parked) firsts calls (holds k)
  unparks :
      (k p : ℕ)
      → parked ≡ suc p
      → Move count parked firsts calls (holds k) count p firsts calls (holds (suc k))

pub data Step : Lives → Lives → Type 0 where
  step :
      (before after : List Pc) {count count' parked parked' firsts firsts' calls calls' : ℕ}
      {p p' : Pc}
      → Move count parked firsts calls p count' parked' firsts' calls' p'
      → Step
          (record {
            count = count;
            parked = parked;
            firsts = firsts;
            on_releases = calls;
            threads = before ++ p ∷ after;
          })
          (record {
            count = count';
            parked = parked';
            firsts = firsts';
            on_releases = calls';
            threads = before ++ p' ∷ after;
          })

pub data Reach (s : Lives) : Lives → Type 0 where
  here : Reach s s
  next : {t u : Lives} → Reach s t → Step t u → Reach s u

-- `n` threads and no reference, as the constructor leaves `mRefCount`.
abbrev pub unreferenced : ℕ → Lives
unreferenced n = record {
  count = 0;
  parked = 0;
  firsts = 0;
  on_releases = 0;
  threads = replicate n (holds 0);
}

-- The references of a thread, and whether it is to call `OnRelease`.
abbrev pub references : Pc → ℕ
references (holds k) = k
references (adds k ret) = suc k
references (releases k ret) = k
references (notifies k) = k

abbrev pub notices : Pc → ℕ
notices (releases k zero) = 1
notices (notifies k) = 1
notices p = 0

-- The count is the number of references; for each change of it from 0 to 1, it has stayed above 0,
-- or one thread is to call `OnRelease` or has.
abbrev Agrees : ℕ → ℕ → ℕ → ℕ → ℕ → ℕ → Type 0
Agrees count parked firsts calls refs notes =
    (count ≡ parked + refs) × (calls + notes + (if count == 0 then 0 else 1) ≡ firsts)

Move-Agrees :
    {count parked firsts calls count' parked' firsts' calls' : ℕ} {p p' : Pc} (refs notes : ℕ)
    → Move count parked firsts calls p count' parked' firsts' calls' p'
    → Agrees count parked firsts calls (refs + references p) (notes + notices p)
    → Agrees count' parked' firsts' calls' (refs + references p') (notes + notices p')
Move-Agrees refs notes (increments k) (v, w) = ground (arith, v, w)
Move-Agrees refs notes (added k ret h) (v, w) = ground (arith, v, w)
Move-Agrees refs notes (decrements k zero h) (v, w) = ground (arith, v, w, h)
Move-Agrees refs notes (decrements k (suc ret) h) (v, w) = ground (arith, v, w, h)
Move-Agrees refs notes (kept k ret h) (v, w) = (v, w)
Move-Agrees refs notes (last k) (v, w) = (v, w)
Move-Agrees refs notes (calls_on_release k) (v, w) = ground (arith, v, w)
Move-Agrees refs notes (parks k) (v, w) = ground (arith, v, w)
Move-Agrees refs notes (unparks k p h) (v, w) = ground (arith, v, w, h)

abbrev Inv : Lives → Type 0
Inv s =
    Agrees s.count s.parked s.firsts s.on_releases (total references s.threads)
      (total notices s.threads)

middle :
    (w : Pc → ℕ) (before : List Pc) (p : Pc) (after : List Pc)
    → total w (before ++ p ∷ after) ≡ total w before + total w after + w p
middle w before p after = omega (arith, total-middle w before p after)

Step-Inv : {s t : Lives} → Step s t → Inv s → Inv t
Step-Inv (step before after {count} {p} {p'} m) (v, w) =
    rw (middle references before p' after, middle notices before p' after)
      (Move-Agrees (total references before + total references after)
        (total notices before + total notices after) m
        (rw (← middle references before p after, ← middle notices before p after) (v, w)))

Reach-Inv : (n : ℕ) {s : Lives} → Reach (unreferenced n) s → Inv s
Reach-Inv n here = (
  omega (arith, total-replicate references n (holds 0) refl),
  omega (arith, total-replicate notices n (holds 0) refl),
)
Reach-Inv n (next r st) = Step-Inv st (Reach-Inv n r)

-- From a new session, however threads take references, give up those that they have, and hand them
-- over with their contexts, at any moment of any interleaving: the count is the number of
-- references that threads and pending operations hold; and as often as it has gone from 0 to 1,
-- `OnRelease` was called, or a thread is about to call it, except for the last time if a reference
-- is left. So `OnRelease` is called again after each time that the session is taken up anew.
pub Reach-released :
    (n : ℕ) {s : Lives}
    → Reach (unreferenced n) s
    → (s.count ≡ s.parked + total references s.threads)
      × (s.on_releases
            + total notices s.threads
            + (if s.parked + total references s.threads == 0 then 0 else 1)
          ≡ s.firsts)
Reach-released n {s} r = let (v, w) = Reach-Inv n r in (v, rw (← v) w)
