-- ===== src/ObjectPool/Tests.antt =====
-- The object pool with 24-byte containers, three to a chunk.
use windows_iocp_network.Base.{◌≡◌, refl, [], ◌∷◌, arith, Returns}
use windows_iocp_network.ObjectPool.{ObjectPool, write, operator_new, operator_delete, news}
use windows_iocp_network.ObjectPool.Chain.{Free, operator_new-Free, new-delete}
use windows_iocp_network.ObjectPool.Slots.{news_of_empty}

-- The chunk's last slot, at 1048, holds 77 from an earlier use of the memory.
abbrev empty : ObjectPool
empty = record {
  memory = write (λ _. 0) 1048 77;
  free_list = 0;
  total_alloc_count = 0;
  current_use_count = 0;
}

-- The object at 1000 is in use, that at 1024 is free.
abbrev half_used : ObjectPool
half_used = record {
  memory = λ _. 0;
  free_list = 1024;
  total_alloc_count = 3;
  current_use_count = 1;
}

three_objects : (news 24 3 3 1000 empty).0 ≡ 1000 ∷ 1024 ∷ 1048 ∷ []
unfolding news operator_new
three_objects = refl

operator_new-Free_example :
    let (p, s') = operator_new 24 3 1000 half_used in
    (p ≡ 1024) × Free s' 0 [] × (s'.current_use_count ≡ 2) × (s'.memory ≡ (λ _. 0))
operator_new-Free_example =
    operator_new-Free 24 3 1000 0 1024 [] half_used (refl, omega arith, refl)

new-delete_example :
    Returns
      (λ s'.
        let (p, s'') = operator_new 24 3 1000 s' in
        (p ≡ 1000)
        × (s''.free_list ≡ 1024)
        × (s''.current_use_count ≡ 1)
        × (s''.total_alloc_count ≡ 3))
      (operator_delete 1000 half_used)
new-delete_example = new-delete 24 3 1000 1000 half_used (omega arith) (omega arith)

news_of_empty_example :
    let (ps, s') = news 24 3 3 1000 empty in (ps ≡ 1000 ∷ 1024 ∷ 1048 ∷ []) × (s'.free_list ≡ 77)
news_of_empty_example = news_of_empty 24 2 1000 empty (omega arith) (omega arith) refl
