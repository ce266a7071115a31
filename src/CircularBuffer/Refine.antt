-- ===== src/CircularBuffer/Refine.antt =====
-- CircularBuffer.hpp against a byte queue, oldest byte first.
use windows_iocp_network.Base.{
  ℕ, ◌+◌, ◌-◌, ◌≤◌, ◌<◌, min, ◌≡◌, sym, ap, ◌∙◌, ◌⊎◌, inl, inr, Option, none, some, List, [], ◌++◌,
  arith, length, take, drop, length-append, word_mod, drop-append_le, take-append_le, take-take,
  take-nil, take-all, drop-nil, drop-drop, Option-cases,
}
use mathlib.Core.List.{append-nil, append_assoc}
use windows_iocp_network.Memory.{
  region, slice, write_at, length-slice, slice-write_at_self, slice-write_at_below,
  slice-write_at_above, slice-add, drop-slice,
}
use windows_iocp_network.CircularBuffer.{
  CircularBuffer, remove_a, remove_b, compact, remove, get_free_space_size, get_stored_size,
  get_contiguious_bytes, get_buffer_start, put,
}
use windows_iocp_network.CircularBuffer.Inv.{
  BRegion, IsValid, IsLoose, HasRoom, remove_a-IsLoose, remove_a-rest, remove_b-IsLoose,
}

take-region :
    (m n : ℕ) (p : Option ℕ) (buf : List ℕ) → m ≤ n → take m (region p n buf) ≡ region p m buf
take-region m n none buf h = take-nil m
take-region m n (some p) buf h = take-take m n (drop p buf) h

-- Region A, then region B.
abbrev pub contents : CircularBuffer → List ℕ
contents c =
    slice c.a_region_pointer c.a_region_size c.buffer
    ++ region c.b_region_pointer c.b_region_size c.buffer

length-region :
    (p : Option ℕ) (n a s : ℕ) (buf : List ℕ)
    → a ≤ length buf
    → BRegion p n a s
    → length (region p n buf) ≡ n
length-region none n a s buf h b = omega arith
length-region (some p) n a s buf h b = length-slice p n buf (omega arith)

-- `GetStoredSize` is the length of the queue.
pub get_stored_size_lem : {c : CircularBuffer} → IsValid c → get_stored_size c ≡ length (contents c)
unfolding get_stored_size
get_stored_size_lem {c} v = omega (
  arith,
  length-append (slice c.a_region_pointer c.a_region_size c.buffer)
      (region c.b_region_pointer c.b_region_size c.buffer),
  length-slice c.a_region_pointer c.a_region_size c.buffer,
  length-region c.b_region_pointer c.b_region_size c.a_region_pointer c.a_region_size c.buffer,
  bounded c v,
)
  where
    bounded : (c : CircularBuffer) → IsValid c → c.a_region_size + c.b_region_size < word_mod
    bounded c v = ground arith

-- The query leaves the queue alone.
pub contents-get_free_space_size :
    (c : CircularBuffer) → IsValid c → contents (get_free_space_size c).1 ≡ contents c
unfolding get_free_space_size
contents-get_free_space_size c v = ground arith

-- On a well-formed buffer, the region that a send is given holds the oldest stored bytes, and it is
-- empty only if none is stored.
pub contiguious_prefix :
    {c : CircularBuffer}
    → IsValid c
    → (region (get_buffer_start c) (get_contiguious_bytes c) c.buffer
        ≡ take (get_contiguious_bytes c) (contents c))
      × (get_contiguious_bytes c ≡ 0 → contents c ≡ [])
unfolding get_contiguious_bytes get_buffer_start
contiguious_prefix {c} v = ground (
  arith,
  take-append_le c.a_region_size (slice c.a_region_pointer c.a_region_size c.buffer)
      (region c.b_region_pointer c.b_region_size c.buffer),
  take-all c.a_region_size (slice c.a_region_pointer c.a_region_size c.buffer),
  take-all c.b_region_size (region c.b_region_pointer c.b_region_size c.buffer),
  length-slice c.a_region_pointer c.a_region_size c.buffer,
  length-region c.b_region_pointer c.b_region_size c.a_region_pointer c.a_region_size c.buffer,
)

-- The same for fewer bytes than are at once available.
pub contiguious_part :
    {c : CircularBuffer} (n : ℕ)
    → IsValid c
    → n ≤ get_contiguious_bytes c
    → region (get_buffer_start c) n c.buffer ≡ take n (contents c)
contiguious_part {c} n v h =
    let m = get_contiguious_bytes c in
    sym (take-region n m (get_buffer_start c) c.buffer h)
    ∙ ap (take n) (contiguious_prefix v).0
    ∙ take-take n m (contents c) h

-- On a well-formed buffer, bytes that are copied to `GetBuffer()` and committed, and for which
-- there is room at that place, join the end of the queue.
pub put_refines :
    {c : CircularBuffer} (src : List ℕ)
    → IsValid c
    → HasRoom c (length src)
    → contents (put c src) ≡ contents c ++ src
unfolding put
put_refines {c} src v r = elim (Option-cases c.b_region_pointer) [
  | inl e ↦ ground (
    arith,
    slice-add c.a_region_pointer c.a_region_size (length src)
        (write_at (c.a_region_pointer + c.a_region_size) src c.buffer),
    slice-write_at_self (c.a_region_pointer + c.a_region_size) src c.buffer,
    slice-write_at_below c.a_region_pointer c.a_region_size (c.a_region_pointer + c.a_region_size)
        src c.buffer,
    append-nil (slice c.a_region_pointer c.a_region_size c.buffer),
    append-nil (slice c.a_region_pointer c.a_region_size c.buffer ++ src),
  )
  | inr (p, e) ↦ ground (
    arith,
    slice-add p c.b_region_size (length src) (write_at (p + c.b_region_size) src c.buffer),
    slice-write_at_self (p + c.b_region_size) src c.buffer,
    slice-write_at_below p c.b_region_size (p + c.b_region_size) src c.buffer,
    slice-write_at_above c.a_region_pointer c.a_region_size (p + c.b_region_size) src c.buffer,
    append_assoc (slice c.a_region_pointer c.a_region_size c.buffer)
        (slice p c.b_region_size c.buffer) src,
  )
]

contents-remove_a :
    {c : CircularBuffer} (n : ℕ)
    → n < word_mod
    → IsValid c
    → ((remove_a c n).1 ≤ n)
      × (contents (remove_a c n).0 ≡ drop (n - (remove_a c n).1) (contents c))
unfolding remove_a
contents-remove_a {c} n h v = ground (
  arith,
  drop-append_le (min n c.a_region_size) (slice c.a_region_pointer c.a_region_size c.buffer)
      (region c.b_region_pointer c.b_region_size c.buffer),
  length-slice c.a_region_pointer c.a_region_size c.buffer,
  drop-slice (min n c.a_region_size) c.a_region_pointer c.a_region_size c.buffer,
)

contents-remove_b :
    {c : CircularBuffer} (n : ℕ)
    → n < word_mod
    → IsLoose c
    → (n ≡ 0) ⊎ (c.a_region_size ≡ 0)
    → contents (remove_b c n) ≡ drop n (contents c)
unfolding remove_b
contents-remove_b {c} n h v (inl e) = ground arith
contents-remove_b {c} n h v (inr e) =
    let a_nil : slice c.a_region_pointer c.a_region_size c.buffer ≡ [] =
      ap (λ k. slice c.a_region_pointer k c.buffer) e in
    elim (Option-cases c.b_region_pointer) [
      | inl closed ↦ ground (arith, a_nil, drop-nil {A = ℕ} n)
      | inr (p, at) ↦ ground (arith, a_nil, drop-slice n p c.b_region_size c.buffer)
    ]

contents-compact : {c : CircularBuffer} → IsLoose c → contents (compact c) ≡ contents c
unfolding compact
contents-compact {c} v = elim (Option-cases c.b_region_pointer) [
  | inl e ↦ ground arith
  | inr (p, e) ↦ ground (
    arith,
    length-slice p c.b_region_size c.buffer,
    slice-write_at_self 0 (slice p c.b_region_size c.buffer) c.buffer,
    append-nil (slice p c.b_region_size c.buffer),
  )
]

-- On a well-formed buffer `Remove` takes its bytes (fewer than 2^32) off the front of the queue,
-- and all of them if it holds fewer.
pub remove_refines :
    {c : CircularBuffer} (n : ℕ)
    → n < word_mod
    → IsValid c
    → contents (remove c n) ≡ drop n (contents c)
unfolding remove
remove_refines {c} n h v =
    let (c', cnt) = remove_a c n in
    let l = remove_a-IsLoose n h v in
    let r = remove_a-rest n h v in
    let (le, a) = contents-remove_a n h v in
    contents-compact (remove_b-IsLoose cnt l r)
    ∙ contents-remove_b cnt (omega arith) l r
    ∙ ap (drop cnt) a
    ∙ drop-drop cnt (n - cnt) (contents c)
    ∙ ap (λ k. drop k (contents c)) (omega arith)
