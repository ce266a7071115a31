-- ===== src/ObjectPool/History/Tests.antt =====
-- The object pool: two objects of 24 bytes, and the first one's client writes.
use windows_iocp_network.Base.{ℕ, ◌+◌, List, ◌++◌, ◌≡◌, refl, [], arith, length, Distinct}
use windows_iocp_network.ObjectPool.{write}
use windows_iocp_network.ObjectPool.{ObjectPool, operator_new}
use windows_iocp_network.ObjectPool.Slots.{slots}
use windows_iocp_network.ObjectPool.Bag.{bag}
use windows_iocp_network.ObjectPool.Chain.{Free}
use windows_iocp_network.ObjectPool.Used.{AllSlots}
use windows_iocp_network.ObjectPool.History.{
  Objects, here, next, allocates, writes, allocated, used-Distinct, slots_kept,
}

abbrev unused : ObjectPool
unused = record { memory = λ _. 77; free_list = 0; total_alloc_count = 0; current_use_count = 0 }

abbrev one : Objects 24 2 1000
one = allocated 24 2 1000 (record { used = []; pool = unused })

abbrev written : Objects 24 2 1000
written = record one { pool = record one.pool { memory = write one.pool.memory (1000 + 8) 5 } }

used-Distinct_example :
    let t = allocated 24 2 1000 written in
    Distinct t.used × AllSlots (slots 24 2 1000) t.used × (t.pool.current_use_count ≡ length t.used)
unfolding operator_new
used-Distinct_example =
    used-Distinct 24 2 1000 unused (omega arith) (omega arith) refl refl
      (next (next here (writes 1000 8 5 refl (omega arith))) (allocates (omega arith)))

slots_kept_example :
    let t = allocated 24 2 1000 written in
    (free : List ℕ) × Free t.pool 77 free × (bag (t.used ++ free) ≡ bag (slots 24 2 1000))
unfolding operator_new
slots_kept_example =
    slots_kept 24 2 1000 unused (omega arith) (omega arith) refl refl
      (next (next here (writes 1000 8 5 refl (omega arith))) (allocates (omega arith)))
