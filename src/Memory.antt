-- ===== src/Memory.antt =====
-- A block of bytes: `memcpy` and `memmove` into it, and the bytes of a region of it.
use windows_iocp_network.Base.{
  ℕ, zero, suc, ◌+◌, ◌-◌, ◌≤◌, ◌≡◌, refl, ap, ◌∙◌, Option, none, some, List, [], ◌∷◌, ◌++◌, arith,
  length, take, drop, length-take, length-drop, drop-drop, drop-take, take-add,
}

-- The `n` bytes from offset `p` on.
abbrev pub slice : ℕ → ℕ → List ℕ → List ℕ
slice p n buf = take n (drop p buf)

-- The bytes of a region whose pointer may be null.
abbrev pub region : Option ℕ → ℕ → List ℕ → List ℕ
region none n buf = []
region (some p) n buf = slice p n buf

-- `memcpy(buf + p, src, length src)`. A byte past the end of the block is not stored: the
-- representation invariants of the callers rule such a call out.
pub write_at : ℕ → List ℕ → List ℕ → List ℕ
write_at zero [] buf = buf
write_at zero (x ∷ src) [] = []
write_at zero (x ∷ src) (y ∷ buf) = x ∷ write_at zero src buf
write_at (suc p) src [] = []
write_at (suc p) src (y ∷ buf) = y ∷ write_at p src buf

pub length-write_at : (p : ℕ) (src buf : List ℕ) → length (write_at p src buf) ≡ length buf
unfolding write_at
length-write_at zero [] buf = refl
length-write_at zero (x ∷ src) [] = refl
length-write_at zero (x ∷ src) (y ∷ buf) = ap suc (length-write_at zero src buf)
length-write_at (suc p) src [] = refl
length-write_at (suc p) src (y ∷ buf) = ap suc (length-write_at p src buf)

pub length-slice : (p n : ℕ) (buf : List ℕ) → p + n ≤ length buf → length (slice p n buf) ≡ n
length-slice p n buf h = omega (arith, length-take n (drop p buf), length-drop p buf)

-- What is written is read back.
pub slice-write_at_self :
    (p : ℕ) (src buf : List ℕ)
    → p + length src ≤ length buf
    → slice p (length src) (write_at p src buf) ≡ src
unfolding write_at
slice-write_at_self zero [] buf h = refl
slice-write_at_self zero (x ∷ src) [] h = absurd (omega arith)
slice-write_at_self zero (x ∷ src) (y ∷ buf) h =
    ap (◌∷◌ x) (slice-write_at_self zero src buf (omega arith))
slice-write_at_self (suc p) src [] h = absurd (omega arith)
slice-write_at_self (suc p) src (y ∷ buf) h = slice-write_at_self p src buf (omega arith)

-- A region below the written one is unchanged.
pub slice-write_at_below :
    (q n p : ℕ) (src buf : List ℕ) → q + n ≤ p → slice q n (write_at p src buf) ≡ slice q n buf
unfolding write_at
slice-write_at_below zero zero p src buf h = refl
slice-write_at_below zero (suc n) zero src buf h = absurd (omega arith)
slice-write_at_below zero (suc n) (suc p) src [] h = refl
slice-write_at_below zero (suc n) (suc p) src (y ∷ buf) h =
    ap (◌∷◌ y) (slice-write_at_below zero n p src buf (omega arith))
slice-write_at_below (suc q) n zero src buf h = absurd (omega arith)
slice-write_at_below (suc q) n (suc p) src [] h = refl
slice-write_at_below (suc q) n (suc p) src (y ∷ buf) h =
    slice-write_at_below q n p src buf (omega arith)

drop-write_at_above :
    (q p : ℕ) (src buf : List ℕ) → p + length src ≤ q → drop q (write_at p src buf) ≡ drop q buf
unfolding write_at
drop-write_at_above q zero [] buf h = refl
drop-write_at_above zero zero (x ∷ src) buf h = absurd (omega arith)
drop-write_at_above (suc q) zero (x ∷ src) [] h = refl
drop-write_at_above (suc q) zero (x ∷ src) (y ∷ buf) h =
    drop-write_at_above q zero src buf (omega arith)
drop-write_at_above zero (suc p) src buf h = absurd (omega arith)
drop-write_at_above (suc q) (suc p) src [] h = refl
drop-write_at_above (suc q) (suc p) src (y ∷ buf) h = drop-write_at_above q p src buf (omega arith)

-- So is a region above it.
pub slice-write_at_above :
    (q n p : ℕ) (src buf : List ℕ)
    → p + length src ≤ q
    → slice q n (write_at p src buf) ≡ slice q n buf
slice-write_at_above q n p src buf h = ap (take n) (drop-write_at_above q p src buf h)

-- Two neighbouring regions are one.
pub slice-add :
    (p m n : ℕ) (buf : List ℕ) → slice p (m + n) buf ≡ slice p m buf ++ slice (p + m) n buf
slice-add p m n buf =
    take-add m n (drop p buf) ∙ ap (λ t. slice p m buf ++ take n t) (drop-drop m p buf)

-- The bytes that are left of a region after its first `k`.
pub drop-slice : (k p n : ℕ) (buf : List ℕ) → drop k (slice p n buf) ≡ slice (p + k) (n - k) buf
drop-slice k p n buf = drop-take k n (drop p buf) ∙ ap (take (n - k)) (drop-drop k p buf)
