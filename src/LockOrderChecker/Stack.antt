-- ===== src/LockOrderChecker/Stack.antt =====
-- LockOrderChecker.hpp against a list of locks, the last one first.
use windows_iocp_network.Base.{
  ℕ, suc, ◌-◌, ◌≤◌, ◌≡◌, refl, ap, true, false, Option, none, some, List, [], ◌∷◌, arith, ltb, ◌==◌,
  if◌then◌else◌, length, Outcome, done, crash, assertion, ◌>>=◌, Returns, Bool-cases, inl, inr,
}
use windows_iocp_network.LockOrderChecker.{
  set_slot, LockOrderChecker, max_lock_depth, construct, push, pop,
}

-- The slot `i` of a stack.
abbrev pub slot : List ℕ → ℕ → Option ℕ
slot [] i = none
slot (x ∷ xs) i = if i == length xs then some x else slot xs i

pub record IsStack (xs : List ℕ) (c : LockOrderChecker) : Type 0 where
  pub top : c.stack_top_pos ≡ length xs
  pub bounded : length xs ≤ max_lock_depth
  pub slots : (i : ℕ) → c.lock_stack i ≡ slot xs i

pub data Call : Type 0 where
  pushes pops : ℕ → Call

abbrev pub call : Call → LockOrderChecker → Outcome LockOrderChecker
call (pushes lock) c = push lock c
call (pops lock) c = pop lock c

abbrev pub calls : List Call → LockOrderChecker → Outcome LockOrderChecker
calls [] c = done c
calls (x ∷ xs) c = call x c >>= calls xs

-- The same on a list of at most 32 locks; `none` if it overflows or is popped empty.
abbrev pub list_call : Call → List ℕ → Option (List ℕ)
list_call (pushes lock) xs = if ltb (length xs) max_lock_depth then some (lock ∷ xs) else none
list_call (pops lock) [] = none
list_call (pops lock) (x ∷ xs) = some xs

abbrev pub bind : Option (List ℕ) → (List ℕ → Option (List ℕ)) → Option (List ℕ)
bind none f = none
bind (some xs) f = f xs

abbrev pub list_calls : List Call → List ℕ → Option (List ℕ)
list_calls [] xs = some xs
list_calls (x ∷ rest) xs = bind (list_call x xs) (list_calls rest)

abbrev pub Matches : Option (List ℕ) → Outcome LockOrderChecker → Type 0
Matches none m = m ≡ crash assertion
Matches (some xs) m = Returns (IsStack xs) m

slot_above : (xs : List ℕ) (i : ℕ) → length xs ≤ i → slot xs i ≡ none
slot_above [] i h = refl
slot_above (x ∷ xs) i h =
    let off : (i == length xs) ≡ false = ground arith in rw off (slot_above xs i (omega arith))

construct-IsStack : (tid : ℕ) → IsStack [] (construct tid)
unfolding construct
construct-IsStack tid = record { top = refl; bounded = omega arith; slots = λ i. refl }

slots_of_pop :
    (x : ℕ) (xs : List ℕ) (memory : ℕ → Option ℕ)
    → ((i : ℕ) → memory i ≡ slot (x ∷ xs) i)
    → (i : ℕ) → set_slot memory (length xs) none i ≡ slot xs i
slots_of_pop x xs memory h i = ground (arith, h i, slot_above xs i)

pop_lem :
    (lock n : ℕ) (c : LockOrderChecker)
    → c.stack_top_pos ≡ suc n
    → pop lock c ≡ done (record c { stack_top_pos = n; lock_stack = set_slot c.lock_stack n none })
unfolding pop
pop_lem lock n c e =
    let t : ltb 0 c.stack_top_pos ≡ true = ground arith in
    let n' : c.stack_top_pos - 1 ≡ n = omega (arith, e) in rw (t, n') refl

call-Matches :
    (x : Call) (xs : List ℕ) (c : LockOrderChecker)
    → IsStack xs c
    → Matches (list_call x xs) (call x c)
unfolding push pop
call-Matches (pushes lock) xs c v = elim (Bool-cases (ltb (length xs) max_lock_depth)) [
  | inl fits ↦
      rw (fits, v.top, fits)
        (record {
          top = omega arith;
          bounded = ground arith;
          slots = λ i. ap (λ o. if i == length xs then some lock else o) (v.slots i);
        })
  | inr full ↦ rw (full, v.top, full) refl
]
call-Matches (pops lock) [] c v = rw v.top refl
call-Matches (pops lock) (x ∷ xs) c v = rw (pop_lem lock (length xs) c v.top) (record {
  top = refl;
  bounded = omega (arith, v.bounded);
  slots = slots_of_pop x xs c.lock_stack v.slots;
})

Matches-bind :
    (o : Option (List ℕ)) (m : Outcome LockOrderChecker) (f : List ℕ → Option (List ℕ))
    (g : LockOrderChecker → Outcome LockOrderChecker)
    → ((ys : List ℕ) (c : LockOrderChecker) → IsStack ys c → Matches (f ys) (g c))
    → Matches o m
    → Matches (bind o f) (m >>= g)
Matches-bind none m f g k e = rw e refl
Matches-bind (some ys) (done c) f g k v = k ys c v
Matches-bind (some ys) (crash e) f g k v = absurd v

calls-Matches :
    (rest : List Call) (xs : List ℕ) (c : LockOrderChecker)
    → IsStack xs c
    → Matches (list_calls rest xs) (calls rest c)
calls-Matches [] xs c v = v
calls-Matches (x ∷ rest) xs c v =
    Matches-bind (list_call x xs) (call x c) (list_calls rest) (calls rest) (calls-Matches rest)
      (call-Matches x xs c v)

-- Any calls of `Push` and `Pop` on a new checker do what they do on a list of at most 32 locks: if
-- no push meets 32 locks and no pop meets none, they return, with the locks of the list in the
-- slots below the top and null in all others; otherwise an assertion fails. Neither the
-- order of the locks that are pushed nor which lock a `Pop` is given makes a difference, though the
-- source's comments ask for both.
pub calls_refine :
    (tid : ℕ) (rest : List Call) → Matches (list_calls rest []) (calls rest (construct tid))
calls_refine tid rest = calls-Matches rest [] (construct tid) (construct-IsStack tid)
