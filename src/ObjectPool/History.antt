-- ===== src/ObjectPool/History.antt =====
-- The object pool over any history of calls, while clients write into their objects.
mod Tests
use windows_iocp_network.Base.{
  ℕ, zero, suc, ◌+◌, ◌-◌, ◌*◌, ◌≤◌, ◌<◌, ◌≡◌, ◌≢◌, refl, sym, ap, subst, ◌∙◌, Bool, true, false,
  List, [], ◌∷◌, ◌++◌, arith, ◌==◌, ◌⊎◌, Bool-cases, if◌then◌else◌, length, mem, Distinct,
  List-cases, inl, inr, Outcome, done, Returns, Returns-done,
}
use windows_iocp_network.ObjectPool.{
  ObjectPool, pointer_size, write, link, refill, operator_new, operator_delete,
}
use windows_iocp_network.ObjectPool.Chain.{
  Chain, Apart, Chain-write, Free, operator_new-Free, operator_delete-Free, refill_of_ne,
}
use windows_iocp_network.ObjectPool.Used.{
  without, mem-without, without-Distinct, length-without, occurrences-without, AllSlots,
  AllSlots-mem,
}
use windows_iocp_network.ObjectPool.Bag.{occurrences, bag, bag-append}
use windows_iocp_network.ObjectPool.Slots.{slots, link-Chain, length-slots, refill_of_empty}

module _ (size rounds chunk : ℕ) where
  -- The pool, and the objects that clients hold.
  pub record Objects : Type 0 where
    pub used : List ℕ
    pub pool : ObjectPool

  -- After a call of `operator new`.
  abbrev pub allocated : Objects → Objects
  allocated s =
      let (p, pool) = operator_new size (suc rounds) chunk s.pool in
      record { used = p ∷ s.used; pool = pool }

  -- `operator new` while fewer than ALLOC_COUNT objects are in use, `operator delete` of one in
  -- use, and a client that writes anywhere in an object of its own.
  pub data Step (s : Objects) : Objects → Type 0 where
    allocates : length s.used < suc rounds → Step s (allocated s)
    deletes :
        (p : ℕ) {pool : ObjectPool}
        → mem p s.used ≡ true
        → operator_delete p s.pool ≡ done pool
        → Step s (record { used = without p s.used; pool = pool })
    writes :
        (p offset value : ℕ)
        → mem p s.used ≡ true
        → offset + pointer_size ≤ size
        → Step s
            (record s { pool = record s.pool { memory = write s.pool.memory (p + offset) value } })

  pub data Reach (s : Objects) : Objects → Type 0 where
    here : Reach s s
    next : {t u : Objects} → Reach s t → Step t u → Reach s u

  -- The slots of the chunk are the objects in use and those on the free list.
  pub record Inv (last : ℕ) (s : Objects) : Type 0 where
    pub free : List ℕ
    pub chain : Free s.pool last free
    pub distinct_used : Distinct s.used
    pub distinct_free : Distinct free
    pub apart : (p : ℕ) → mem p s.used ≡ true → mem p free ≡ false
    pub slot : (p : ℕ) → mem p s.used ≡ true → mem p (slots size rounds chunk) ≡ true
    pub free_slot : (p : ℕ) → mem p free ≡ true → mem p (slots size rounds chunk) ≡ true
    pub all : length s.used + length free ≡ suc rounds
    pub count : s.pool.current_use_count ≡ length s.used
    pub whole :
        (a : ℕ)
        → occurrences a s.used + occurrences a free ≡ occurrences a (slots size rounds chunk)

  allocates-Inv :
      (last x : ℕ) (xs : List ℕ) (s : Objects)
      → (v : Inv last s) → v.free ≡ x ∷ xs
      → Inv last (allocated s)
  allocates-Inv last x xs s v e =
      let (first, chain, count, same) =
        operator_new-Free size (suc rounds) chunk last x xs s.pool
          (subst (Free s.pool last) e v.chain) in
      record {
        free = xs;
        chain = chain;
        distinct_used = ground (arith, first, v.apart x, v.distinct_used, e);
        distinct_free = (subst Distinct e v.distinct_free).1;
        apart = λ q m. ground (arith, first, v.apart q, subst Distinct e v.distinct_free, e);
        slot = λ q m. ground (arith, first, v.slot q, v.free_slot x, e);
        free_slot = λ q m. ground (arith, v.free_slot q, e);
        all = ground (arith, v.all, e);
        count = ground (arith, v.count, count);
        whole = λ a. ground (arith, first, v.whole a, e);
      }

  slots-le : (n p q : ℕ) → mem q (slots size n p) ≡ true → p ≤ q
  slots-le zero p q h = ground arith
  slots-le (suc n) p q h = ground (arith, slots-le n (p + size) q)

  -- Two slots have at least the size of an object between them.
  slots_apart :
      (n p a b : ℕ)
      → mem a (slots size n p) ≡ true
      → mem b (slots size n p) ≡ true
      → a ≢ b
      → (a + size ≤ b) ⊎ (b + size ≤ a)
  slots_apart zero p a b h k ne = ground (arith, h, k)
  slots_apart (suc n) p a b h k ne = elim (Bool-cases (a == p)) [
    | inl first ↦ ground (arith, first, k, slots-le n (p + size) b)
    | inr later ↦ elim (Bool-cases (b == p)) [
      | inl first ↦ ground (arith, first, h, slots-le n (p + size) a)
      | inr later' ↦
          slots_apart n (p + size) a b (ground (arith, later, h)) (ground (arith, later', k)) ne
    ]
  ]

  -- What is written in an object in use is apart from the links of the free slots.
  free-Apart :
      {last : ℕ} (s : Objects) (p offset : ℕ)
      → (v : Inv last s) → mem p s.used ≡ true
      → offset + pointer_size ≤ size
      → (x : ℕ) → mem x v.free ≡ true
      → Apart (p + offset) x
  free-Apart s p offset v m room x f =
      let ne : p ≢ x = λ e. absurd (ground (arith, v.apart p m, f, e)) in
      elim (slots_apart rounds chunk p x (v.slot p m) (v.free_slot x f) ne) [
        | inl below ↦ inr (omega (arith, below, room))
        | inr above ↦ inl (omega (arith, above, room))
      ]

  slots-Distinct : (n p : ℕ) → 0 < size → Distinct (slots size n p)
  slots-Distinct zero p h = ground arith
  slots-Distinct (suc n) p h =
      (ground (arith, slots-le n (p + size) p), slots-Distinct n (p + size) h)

  deletes-Inv :
      (last p : ℕ) (s : Objects) {pool : ObjectPool}
      → pointer_size ≤ size
      → 0 < chunk
      → mem p s.used ≡ true
      → operator_delete p s.pool ≡ done pool
      → Inv last s
      → Inv last (record { used = without p s.used; pool = pool })
  deletes-Inv last p s {pool} room k m e v =
      let positive : 0 < p = omega (arith, slots-le rounds chunk p (v.slot p m)) in
      let shorter = length-without p s.used m in
      let (chain, count) =
        Returns-done
          (λ t. Free t last (p ∷ v.free) × (t.current_use_count + 1 ≡ s.pool.current_use_count))
          (operator_delete p s.pool) e
          (operator_delete-Free last p v.free s.pool v.chain positive
            (λ x f.
              subst (λ q. Apart q x) (omega arith) (free-Apart s p 0 v m (omega (arith, room)) x f))
            (omega (arith, v.count, shorter))) in
      record {
        free = p ∷ v.free;
        chain = chain;
        distinct_used = without-Distinct p s.used v.distinct_used;
        distinct_free = (v.apart p m, v.distinct_free);
        apart = λ q n. ground (arith, v.apart q, mem-without q p s.used v.distinct_used);
        slot = λ q n. ground (arith, v.slot q, mem-without q p s.used v.distinct_used);
        free_slot = λ q n. ground (arith, v.free_slot q, v.slot p m);
        all = omega (arith, v.all, shorter);
        count = omega (arith, v.count, shorter, count);
        whole = λ a. omega (arith, v.whole a, occurrences-without a p s.used m);
      }

  Step-Inv :
      {last : ℕ} {s t : Objects}
      → pointer_size ≤ size
      → 0 < chunk
      → Step s t
      → Inv last s
      → Inv last t
  Step-Inv {last} {s} room k (allocates few) v = elim (List-cases v.free) [
    | inl e ↦ absurd (omega (arith, v.all, ap length e))
    | inr (x, xs, e) ↦ allocates-Inv last x xs s v e
  ]
  Step-Inv {last} {s} room k (deletes p m e) v = deletes-Inv last p s room k m e v
  Step-Inv {last} {s} room k (writes p offset value m inside) v = record {
    free = v.free;
    chain =
        Chain-write s.pool.memory last s.pool.free_list (p + offset) value v.free
          (free-Apart s p offset v m inside) v.chain;
    distinct_used = v.distinct_used;
    distinct_free = v.distinct_free;
    apart = v.apart;
    slot = v.slot;
    free_slot = v.free_slot;
    all = v.all;
    count = v.count;
    whole = v.whole;
  }

  Reach-Inv :
      {last : ℕ} {s t : Objects}
      → pointer_size ≤ size
      → 0 < chunk
      → Inv last s
      → Reach s t
      → Inv last t
  Reach-Inv room k v here = v
  Reach-Inv room k v (next r st) = Step-Inv room k st (Reach-Inv room k v r)

  first-Inv :
      (s : ObjectPool)
      → pointer_size ≤ size
      → 0 < chunk
      → s.free_list ≡ 0
      → s.current_use_count ≡ 0
      → Inv (s.memory (chunk + rounds * size)) (allocated (record { used = []; pool = s }))
  unfolding operator_new
  first-Inv s h k e none_used =
      let once = refill_of_empty size rounds chunk s e in
      let s' = refill size (suc rounds) chunk s in
      let last = s.memory (chunk + rounds * size) in
      let start : Inv last (record { used = []; pool = s' }) = rw once (record {
        free = slots size rounds chunk;
        chain = link-Chain size rounds chunk s.memory h k;
        distinct_used = tt;
        distinct_free = slots-Distinct rounds chunk (omega (arith, h));
        apart = λ p m. cc;
        slot = λ p m. cc;
        free_slot = λ p m. m;
        all = omega (arith, length-slots size rounds chunk);
        count = none_used;
        whole = λ a. omega arith;
      }) in
      let again = refill_of_ne size (suc rounds) chunk s' (rw once (omega arith)) in
      let same : operator_new size (suc rounds) chunk s' ≡ operator_new size (suc rounds) chunk s =
        rw again refl in
      subst (λ (r : ℕ × ObjectPool). Inv last (record { used = r.0 ∷ []; pool = r.1 })) same
        (Step-Inv h k (allocates (omega arith)) start)

-- After the first `operator new` on a pool without a free list and without objects, whose chunk is
-- not at null, over any history in which at most ALLOC_COUNT objects are in use, of at least the
-- size of a pointer, only those are deleted, and clients write what they like anywhere in their
-- own: the objects in use are distinct slots of the chunk, and the counter is their number.
pub used-Distinct :
    (size rounds chunk : ℕ) (s : ObjectPool) {t : Objects size rounds chunk}
    → pointer_size ≤ size
    → 0 < chunk
    → s.free_list ≡ 0
    → s.current_use_count ≡ 0
    → Reach size rounds chunk (allocated size rounds chunk (record { used = []; pool = s })) t
    → Distinct t.used
      × AllSlots (slots size rounds chunk) t.used
      × (t.pool.current_use_count ≡ length t.used)
used-Distinct size rounds chunk s {t} h k e none_used r =
    let v = Reach-Inv size rounds chunk h k (first-Inv size rounds chunk s h k e none_used) r in
    (v.distinct_used, AllSlots-mem (slots size rounds chunk) t.used v.slot, v.count)

-- Over the same histories no slot is lost: the objects in use and the slots on the free list, which
-- ends in the word that the chunk held in its last slot, are together the slots of the chunk, each
-- once, in whatever order.
pub slots_kept :
    (size rounds chunk : ℕ) (s : ObjectPool) {t : Objects size rounds chunk}
    → pointer_size ≤ size
    → 0 < chunk
    → s.free_list ≡ 0
    → s.current_use_count ≡ 0
    → Reach size rounds chunk (allocated size rounds chunk (record { used = []; pool = s })) t
    → (free : List ℕ) × Free t.pool (s.memory (chunk + rounds * size)) free
      × (bag (t.used ++ free) ≡ bag (slots size rounds chunk))
slots_kept size rounds chunk s {t} h k e none_used r =
    let v = Reach-Inv size rounds chunk h k (first-Inv size rounds chunk s h k e none_used) r in
    (v.free, v.chain, bag-append t.used v.free (slots size rounds chunk) v.whole)
