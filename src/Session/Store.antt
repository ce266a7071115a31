-- ===== src/Session/Store.antt =====
-- `PostSend` of Session.hpp over the send buffer.
use windows_iocp_network.Base.{
  ℕ, ◌≤◌, ◌<◌, ◌≡◌, refl, Bool, true, List, [], ◌++◌, arith, ltb, if◌then◌else◌, length, Bool-cases,
  inl, inr,
}
use windows_iocp_network.CircularBuffer.{
  CircularBuffer, get_free_space_size, get_contiguious_bytes, get_buffer_start, put,
}
use windows_iocp_network.CircularBuffer.Inv.{
  IsValid, HasRoom, get_free_space_size-IsValid, get_free_space_size-HasRoom, put-IsValid,
}
use windows_iocp_network.CircularBuffer.Refine.{contents, contents-get_free_space_size, put_refines}
use windows_iocp_network.CircularBuffer.Room.{
  put_keeps_contiguious, get_free_space_size_keeps_contiguious, get_free_space_size_bounds,
}
use windows_iocp_network.Session.{store}

HasRoom-mono : {c : CircularBuffer} {m n : ℕ} → m ≤ n → HasRoom c n → HasRoom c m
HasRoom-mono h r = ground arith

capacity-get_free_space_size :
    (c : CircularBuffer) → (get_free_space_size c).1.capacity ≡ c.capacity
unfolding get_free_space_size
capacity-get_free_space_size c = ground arith

capacity-put : (c : CircularBuffer) (src : List ℕ) → (put c src).capacity ≡ c.capacity
unfolding put
capacity-put c src = ground arith

-- What `PostSend` does to the buffer.
pub record Stored (c : CircularBuffer) (bytes : List ℕ) (ok : Bool) (c' : CircularBuffer)
    : Type 0 where
  pub valid : IsValid c'
  pub queue : contents c' ≡ (if ok then contents c ++ bytes else contents c)
  pub fits : contents c ≡ [] → length bytes ≤ c.capacity → ok ≡ true
  pub same_size : c'.capacity ≡ c.capacity
  pub start :
      0 < get_contiguious_bytes c
      → (get_buffer_start c' ≡ get_buffer_start c)
        × (get_contiguious_bytes c ≤ get_contiguious_bytes c')

-- On a well-formed buffer `PostSend` keeps the buffer's invariant and capacity; it appends all its
-- bytes to the queue or none; it takes them if the buffer is empty and they fit in its capacity;
-- and it leaves the start of the bytes at once available where it is and never makes them fewer.
pub store-Stored :
    {c : CircularBuffer} (bytes : List ℕ)
    → IsValid c
    → Stored c bytes (store c bytes).0 (store c bytes).1
unfolding store
store-Stored {c} bytes v =
    let r = get_free_space_size c in
    let v' = get_free_space_size-IsValid v in
    let room = get_free_space_size-HasRoom v in
    let same = contents-get_free_space_size c v in
    let kept = get_free_space_size_keeps_contiguious v in
    elim (Bool-cases (ltb r.0 (length bytes))) [
      | inl full ↦ rw full (record {
        valid = v';
        queue = same;
        fits = λ e h. ground (arith, get_free_space_size_bounds v);
        same_size = capacity-get_free_space_size c;
        start = ground arith;
      })
      | inr fits ↦
          let room' : HasRoom r.1 (length bytes) = HasRoom-mono (ground arith) room in
          rw fits (record {
            valid = put-IsValid bytes v' room';
            queue = rw (put_refines bytes v' room', same);
            fits = λ e h. refl;
            same_size = rw (capacity-put r.1 bytes) (capacity-get_free_space_size c);
            start = λ h. ground (arith, put_keeps_contiguious bytes v' room');
          })
    ]
