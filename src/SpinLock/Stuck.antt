-- ===== src/SpinLock/Stuck.antt =====
-- The two loops of FastSpinLock.hpp that have no exit: `EnterReadLock` and `EnterLock`.
use windows_iocp_network.Base.{
  ℕ, zero, suc, ◌+◌, ◌≡◌, refl, Option, none, List, [], ◌∷◌, ◌++◌, arith, ◌==◌, if◌then◌else◌, min,
}
use windows_iocp_network.SpinLock.{write_bits, read_bits}

-- `EnterReadLock` for a number of accesses of the flag. `seen k` is the value that access `k`
-- finds, whatever the other threads do. A result would be the number of accesses made up to a
-- return; `none` means that it still runs. The body of the last `if` is a comment.
unfoldable pub enter_read_lock : ℕ → (ℕ → ℕ) → ℕ → Option ℕ
enter_read_lock zero seen k = none
enter_read_lock (suc fuel) seen k =
    let spin = enter_read_lock fuel seen (k + 1) in
    let with_readers = enter_read_lock fuel seen (k + 2) in
    let without_readers = enter_read_lock fuel seen (k + 2) in
    if write_bits (seen k) == 0
    then (if read_bits (seen (k + 1)) == 0 then without_readers else with_readers)
    else spin

-- `EnterLock` for a number of rounds: `seen k` is what the exchange of round `k` finds. A result
-- would be the number of rounds up to a return; the list is the `Sleep`s so far.
unfoldable pub enter_lock : ℕ → (ℕ → ℕ) → ℕ → List ℕ → Option ℕ × List ℕ
enter_lock zero seen nloops sleeps = (none, sleeps)
enter_lock (suc fuel) seen nloops sleeps =
    enter_lock fuel seen (nloops + 1)
      (if seen nloops == 0 then sleeps ++ min 10 nloops ∷ [] else sleeps)

-- However long it runs and whatever it finds, `EnterReadLock` does not return.
pub enter_read_lock-eq-none : (fuel : ℕ) (seen : ℕ → ℕ) (k : ℕ) → enter_read_lock fuel seen k ≡ none
unfolding enter_read_lock
enter_read_lock-eq-none zero seen k = refl
enter_read_lock-eq-none (suc fuel) seen k =
    ground
      (arith, enter_read_lock-eq-none fuel seen (k + 1), enter_read_lock-eq-none fuel seen (k + 2))

-- However long it runs and whatever its exchanges find, `EnterLock` does not return, also when one
-- of them finds the lock free.
pub enter_lock-eq-none :
    (fuel : ℕ) (seen : ℕ → ℕ) (nloops : ℕ) (sleeps : List ℕ)
    → (enter_lock fuel seen nloops sleeps).0 ≡ none
unfolding enter_lock
enter_lock-eq-none zero seen nloops sleeps = refl
enter_lock-eq-none (suc fuel) seen nloops sleeps =
    enter_lock-eq-none fuel seen (nloops + 1)
      (if seen nloops == 0 then sleeps ++ min 10 nloops ∷ [] else sleeps)
