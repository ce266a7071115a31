-- ===== src/ObjectPool/Chain.antt =====
-- The free list of the object pool as a list of slots.
use windows_iocp_network.Base.{
  ℕ, ◌+◌, ◌-◌, ◌<◌, ◌≤◌, ◌⊎◌, ◌≡◌, ◌≢◌, refl, true, List, [], ◌∷◌, arith, ltb, ◌==◌, mem, Returns,
}
use windows_iocp_network.ObjectPool.{
  ObjectPool, pointer_size, write, operator_new, operator_delete, refill,
}

-- From `p` the pointers lead through the slots, none of them null, to `last`.
abbrev pub Chain : (ℕ → ℕ) → ℕ → ℕ → List ℕ → Type 0
Chain memory last p [] = p ≡ last
Chain memory last p (x ∷ xs) = (p ≡ x) × (0 < x) × Chain memory last (memory x) xs

-- Two words that share no byte.
abbrev pub Apart : ℕ → ℕ → Type 0
Apart p q = (q + pointer_size ≤ p) ⊎ (p + pointer_size ≤ q)

pub write-Apart : (memory : ℕ → ℕ) (p value q : ℕ) → Apart p q → write memory p value q ≡ memory q
write-Apart memory p value q h = ground (arith, h)

-- A write that shares no byte with the links of the chain leaves it.
pub Chain-write :
    (memory : ℕ → ℕ) (last p q value : ℕ) (xs : List ℕ)
    → ((x : ℕ) → mem x xs ≡ true → Apart q x)
    → Chain memory last p xs
    → Chain (write memory q value) last p xs
Chain-write memory last p q value [] off c = c
Chain-write memory last p q value (x ∷ xs) off (e, pos_x, c) =
    let kept = write-Apart memory q value x (off x (ground arith)) in
    (
      e,
      pos_x,
      rw kept (Chain-write memory last (memory x) q value xs (λ y h. off y (ground arith)) c),
    )

-- The pool's free slots are `xs`, with `last` behind them.
abbrev pub Free : ObjectPool → ℕ → List ℕ → Type 0
Free s last xs = Chain s.memory last s.free_list xs

pub refill_of_ne :
    (size count chunk : ℕ) (s : ObjectPool) → s.free_list ≢ 0 → refill size count chunk s ≡ s
unfolding refill
refill_of_ne size count chunk s h = ground arith

-- While a slot is free, `operator new` hands out the first, counts it, and leaves the rest.
pub operator_new-Free :
    (size count chunk last x : ℕ) (xs : List ℕ) (s : ObjectPool)
    → Free s last (x ∷ xs)
    → let (p, s') = operator_new size count chunk s in
      (p ≡ x)
      × Free s' last xs
      × (s'.current_use_count ≡ s.current_use_count + 1)
      × (s'.memory ≡ s.memory)
unfolding operator_new
operator_new-Free size count chunk last x xs s (e, pos_x, c) =
    let full : refill size count chunk s ≡ s = refill_of_ne size count chunk s (ground arith) in
    rw full (e, rw e c, refl, refl)

-- While an object is in use, `operator delete` of an object that shares no byte with the links puts
-- it before the free ones, and counts it back.
pub operator_delete-Free :
    (last obj : ℕ) (xs : List ℕ) (s : ObjectPool)
    → Free s last xs
    → 0 < obj
    → ((x : ℕ) → mem x xs ≡ true → Apart obj x)
    → 0 < s.current_use_count
    → Returns
        (λ s'. Free s' last (obj ∷ xs) × (s'.current_use_count + 1 ≡ s.current_use_count))
        (operator_delete obj s)
unfolding operator_delete
operator_delete-Free last obj xs s c pos_obj off used =
    let counted : ltb 0 s.current_use_count ≡ true = ground arith in
    let self : (obj == obj) ≡ true = ground arith in
    rw (counted, self)
      ((refl, pos_obj, Chain-write s.memory last s.free_list obj s.free_list xs off c), omega arith)

-- While an object is in use, the object deleted last is the next one that `operator new` returns,
-- and then the free list and both counts are as before.
pub new-delete :
    (size count chunk obj : ℕ) (s : ObjectPool)
    → 0 < obj
    → 0 < s.current_use_count
    → Returns
        (λ s'.
          let (p, s'') = operator_new size count chunk s' in
          (p ≡ obj)
          × (s''.free_list ≡ s.free_list)
          × (s''.current_use_count ≡ s.current_use_count)
          × (s''.total_alloc_count ≡ s.total_alloc_count))
        (operator_delete obj s)
unfolding operator_new operator_delete
new-delete size count chunk obj s pos_obj used =
    let counted : ltb 0 s.current_use_count ≡ true = ground arith in
    rw counted (
      ground (
        arith,
        refill_of_ne size count chunk (record s {
          memory = write s.memory obj s.free_list;
          free_list = obj;
          current_use_count = s.current_use_count - 1;
        }),
      ))
