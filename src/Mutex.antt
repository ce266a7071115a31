-- ===== src/Mutex.antt =====
-- `std::mutex`, and `std::lock_guard` over it, for win-iocp/win-iocp/ObjectPool.hpp: a thread that
-- asks waits until the mutex is free.
use windows_iocp_network.Base.{
  ℕ, ◌≤◌, ◌≡◌, refl, Bool, true, false, List, ◌∷◌, ◌++◌, arith, if◌then◌else◌, total, total-middle,
  total-replicate,
}
use windows_iocp_network.Guard.{Lock, IsExclusive}

pub data Pc : Type 0 where
  idle asking holding : Pc

-- The flag says whether the mutex is locked.
pub data Move (f : Bool) : Pc → Bool → Pc → Type 0 where
  asks : Move f idle f asking
  blocks : f ≡ true → Move f asking f asking
  locks : f ≡ false → Move f asking true holding
  unlocks : Move f holding false idle

abbrev pub is_holding : Pc → Bool
is_holding holding = true
is_holding _ = false

abbrev pub mutex : Lock Bool Pc
mutex = record {
  Move = Move;
  idle = idle;
  entry = λ exclusive. asking;
  holding = holding;
  is_holding = is_holding;
  new_flag = false;
}

abbrev holders : Pc → ℕ
holders holding = 1
holders _ = 0

abbrev Inv : Bool → List Pc → Type 0
Inv f ps = total holders ps ≡ (if f then 1 else 0)

Move-Inv :
    (before after : List Pc) {f f' : Bool} {p p' : Pc}
    → Move f p f' p'
    → Inv f (before ++ p ∷ after)
    → Inv f' (before ++ p' ∷ after)
Move-Inv before after asks v =
    omega
      (arith, v, total-middle holders before idle after, total-middle holders before asking after)
Move-Inv before after (blocks h) v = v
Move-Inv before after (locks h) v = ground (
  arith,
  v,
  h,
  total-middle holders before holding after,
  total-middle holders before asking after,
)
Move-Inv before after {f} unlocks v =
    ground
      (arith, v, total-middle holders before holding after, total-middle holders before idle after)

one_holder : (f : Bool) (ps : List Pc) → Inv f ps → total holders ps ≤ 1
one_holder true ps v = omega (arith, v)
one_holder false ps v = omega (arith, v)

pub mutex-IsExclusive : (limit : ℕ) → IsExclusive mutex limit
mutex-IsExclusive limit = record {
  Inv = λ n f ps. Inv f ps;
  new-Inv = λ n few. total-replicate holders n idle refl;
  Move-Inv = λ n before after few m v. Move-Inv before after m v;
  holders = holders;
  holding-counts = refl;
  one_holder = λ n f ps v. one_holder f ps v;
}
