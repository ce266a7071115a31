-- ===== src/ObjectPool/Slots.antt =====
-- What a fresh chunk of the object pool is cut into, and where its free list ends.
use windows_iocp_network.Base.{
  ℕ, zero, suc, ◌+◌, ◌-◌, ◌*◌, ◌≤◌, inl, inr, ◌<◌, ◌≡◌, ◌≢◌, refl, ap, ap₂, ◌∙◌, true, List, [],
  ◌∷◌, arith, ◌==◌, length,
}
use mathlib.Core.Path.{subst}
use windows_iocp_network.ObjectPool.{
  ObjectPool, pointer_size, write, link, refill, operator_new, news,
}
use windows_iocp_network.ObjectPool.Chain.{
  Chain, write-Apart, Free, operator_new-Free, refill_of_ne,
}

-- The slot at `p`, and `rounds` more.
abbrev pub slots : ℕ → ℕ → ℕ → List ℕ
slots size zero p = p ∷ []
slots size (suc rounds) p = p ∷ slots size rounds (p + size)

link_below :
    (size rounds p q : ℕ) (memory : ℕ → ℕ)
    → q + pointer_size ≤ p
    → link size rounds p memory q ≡ memory q
unfolding link
link_below size zero p q memory h = refl
link_below size (suc rounds) p q memory h =
    link_below size rounds (p + size) q (write memory p (p + size)) (omega (arith, h))
    ∙ write-Apart memory p (p + size) q (inl h)

-- The loop threads all the slots of a chunk; the last pointer is what the memory held.
pub link-Chain :
    (size rounds p : ℕ) (memory : ℕ → ℕ)
    → pointer_size ≤ size
    → 0 < p
    → Chain (link size rounds p memory) (memory (p + rounds * size)) p (slots size rounds p)
unfolding link
link-Chain size zero p memory h k = (refl, k, ap memory (omega arith))
link-Chain size (suc rounds) p memory h k =
    let memory' = write memory p (p + size) in
    let ih = link-Chain size rounds (p + size) memory' h (omega arith) in
    let here : link size rounds (p + size) memory' p ≡ p + size =
      link_below size rounds (p + size) p memory' (omega (arith, h)) ∙ ground arith in
    let end : memory' (p + size + rounds * size) ≡ memory (p + suc rounds * size) =
      let apart : p + pointer_size ≤ p + size + rounds * size = omega (arith, h) in
      let there : p + size + rounds * size ≡ p + suc rounds * size = omega arith in
      write-Apart memory p (p + size) (p + size + rounds * size) (inr apart) ∙ ap memory there in
    let rest = link size rounds (p + size) memory' in
    let ends : Chain rest (memory (p + suc rounds * size)) (p + size)
        (slots size rounds (p + size)) =
      subst (λ l. Chain rest l (p + size) (slots size rounds (p + size))) end ih in
    (refl, k, rw here ends)

-- As many calls of `operator new` as there are free slots return them in order.
news-Free :
    (size count chunk last : ℕ) (xs : List ℕ) (s : ObjectPool)
    → Free s last xs
    → let (ps, s') = news size count (length xs) chunk s in (ps ≡ xs) × (s'.free_list ≡ last)
unfolding news
news-Free size count chunk last [] s c = (refl, c)
news-Free size count chunk last (x ∷ xs) s c =
    let (e, c', _, _) = operator_new-Free size count chunk last x xs s c in
    let (es, l) = news-Free size count chunk last xs (operator_new size count chunk s).1 c' in
    (ap₂ ◌∷◌ e es, l)

pub length-slots : (size rounds p : ℕ) → length (slots size rounds p) ≡ suc rounds
length-slots size zero p = refl
length-slots size (suc rounds) p = ap suc (length-slots size rounds (p + size))

pub refill_of_empty :
    (size rounds chunk : ℕ) (s : ObjectPool)
    → s.free_list ≡ 0
    → refill size (suc rounds) chunk s ≡ record s {
      memory = link size rounds chunk s.memory;
      free_list = chunk;
      total_alloc_count = s.total_alloc_count + suc rounds;
    }
unfolding refill
refill_of_empty size rounds chunk s e =
    let empty : (s.free_list == 0) ≡ true = ground arith in
    let one_less : suc rounds - 1 ≡ rounds = omega arith in rw (empty, one_less)

-- Allocating from the empty pool is allocating from the refilled one.
news_of_refill :
    (size rounds chunk n : ℕ) (s : ObjectPool)
    → 0 < chunk
    → s.free_list ≡ 0
    → news size (suc rounds) (suc n) chunk s
      ≡ news size (suc rounds) (suc n) chunk (refill size (suc rounds) chunk s)
unfolding news operator_new
news_of_refill size rounds chunk n s k e =
    let once = refill_of_empty size rounds chunk s e in
    let again =
      refill_of_ne size (suc rounds) chunk (refill size (suc rounds) chunk s)
        (rw once (omega arith)) in
    rw again

-- From a pool whose free list is null, with a chunk at an address that is not, ALLOC_COUNT objects
-- are the slots of the chunk, each `sizeof(Container)` (at least that of a pointer) after the one
-- before. Then the free list is not null but the word that the chunk held in its last slot.
pub news_of_empty :
    (size rounds chunk : ℕ) (s : ObjectPool)
    → pointer_size ≤ size
    → 0 < chunk
    → s.free_list ≡ 0
    → let (ps, s') = news size (suc rounds) (suc rounds) chunk s in
      (ps ≡ slots size rounds chunk) × (s'.free_list ≡ s.memory (chunk + rounds * size))
news_of_empty size rounds chunk s h k e =
    let s' = refill size (suc rounds) chunk s in
    let free : Free s' (s.memory (chunk + rounds * size)) (slots size rounds chunk) =
      rw (refill_of_empty size rounds chunk s e) (link-Chain size rounds chunk s.memory h k) in
    let drained = news-Free size (suc rounds) chunk _ (slots size rounds chunk) s' free in
    rw (news_of_refill size rounds chunk rounds s k e)
      (rw (length-slots size rounds chunk) at drained)

-- From a pool whose free list is null, the object after the ALLOC_COUNT ones of a chunk is the word
-- that the chunk held in its last slot, wherever it points, unless that is 0.
pub new_after_chunk :
    (size rounds chunk chunk' : ℕ) (s : ObjectPool)
    → pointer_size ≤ size
    → 0 < chunk
    → s.free_list ≡ 0
    → s.memory (chunk + rounds * size) ≢ 0
    → (operator_new size (suc rounds) chunk' (news size (suc rounds) (suc rounds) chunk s).1).0
      ≡ s.memory (chunk + rounds * size)
unfolding operator_new
new_after_chunk size rounds chunk chunk' s h k e g =
    let l = (news_of_empty size rounds chunk s h k e).1 in
    rw
      (refill_of_ne size (suc rounds) chunk' (news size (suc rounds) (suc rounds) chunk s).1
        (rw l g))
      l
