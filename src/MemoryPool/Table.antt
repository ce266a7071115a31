-- ===== src/MemoryPool/Table.antt =====
-- The size table of MemoryPool.hpp against a closed form.
use windows_iocp_network.Base.{
  ℕ, zero, suc, ◌+◌, ◌-◌, ◌*◌, ◌/◌, ◌≤◌, ◌<◌, ◌≡◌, refl, sym, ap, ◌∙◌, ◌↔◌, true, false, Option,
  none, some, arith, ltb, leb, ◌==◌, ◌&&◌, if◌then◌else◌, ◌⊎◌,
}
use windows_iocp_network.MemoryPool.{PoolTable, update, fill, stripe, build_table}

-- `n` rounded up to a multiple of `width`.
abbrev pub round_up : ℕ → ℕ → ℕ
round_up width n = (n + (width - 1)) / width * width

-- Steps of 32 up to 992, of 128 up to 1920, of 256 up to 3840; no pool for 0 and above 3840.
abbrev pub size_class : PoolTable
size_class n =
    if n == 0
    then none
    else (if leb n 992
        then some (round_up 32 n)
        else (if leb n 1920
            then some (round_up 128 n)
            else (if leb n 3840 then some (round_up 256 n) else none)))

fill_lem :
    (rounds j pool : ℕ) (t : PoolTable) (x : ℕ)
    → fill rounds j pool t x ≡ (if leb j x && ltb x (j + rounds) then some pool else t x)
unfolding fill
fill_lem zero j pool t x = ground arith
fill_lem (suc rounds) j pool t x =
    ground (arith, fill_lem rounds (j + 1) pool (update t j (some pool)) x)

-- One stripe of the constructor: `limit - width` is the last size that it makes a pool for.
module _ (limit width : ℕ) (pos_width : 0 < width)
    (next_multiple : (q x : ℕ)
      → q * width < x
      → x ≤ q * width + width
      → round_up width x ≡ q * width + width) where
  last_of : ℕ → ℕ → ℕ
  last_of zero recent = recent
  last_of (suc rounds) recent = limit - width

  last_of-eq : (rounds i : ℕ) → i + suc rounds * width ≡ limit → last_of rounds i ≡ limit - width
  unfolding last_of
  last_of-eq zero i e = omega arith
  last_of-eq (suc rounds) i e = refl

  -- The table after `rounds` rounds.
  Result : ℕ → ℕ → ℕ → PoolTable → Option (ℕ × PoolTable) → Type 0
  Result rounds i recent t r =
      (t' : PoolTable) × (r ≡ some (last_of rounds recent, t'))
      × ((x : ℕ)
          → t' x ≡ (
              if ltb recent x && leb x (last_of rounds recent)
              then some (round_up width x)
              else t x))

  stripe_lem :
      (rounds fuel q i recent : ℕ) (t : PoolTable)
      → rounds < fuel
      → i ≡ q * width
      → i + rounds * width ≡ limit
      → recent ≤ i
      → ((x : ℕ) → recent < x → x ≤ i → round_up width x ≡ i)
      → Result rounds i recent t (stripe fuel limit width i recent t)
  unfolding stripe last_of Result
  stripe_lem zero zero q i recent t f a b c cover = absurd (omega arith)
  stripe_lem zero (suc fuel) q i recent t f a b c cover =
      let stop : ltb i limit ≡ false = ground arith in
      (t, rw (stop, stripe) refl, λ x. ground arith)
  stripe_lem (suc rounds) zero q i recent t f a b c cover = absurd (omega arith)
  stripe_lem (suc rounds) (suc fuel) q i recent t f a b c cover =
      let go : ltb i limit ≡ true = ground arith in
      let t₁ = fill (i - recent) (recent + 1) i t in
      let (t', e, same) =
        stripe_lem rounds fuel (q + 1) (i + width) i t₁ (omega arith) (omega arith) (omega arith)
          (omega arith)
          (λ x above below.
            next_multiple q x (omega arith) (omega arith) ∙ ap (λ k. k + width) (sym a)) in
      let last = last_of-eq rounds i b in
      (
        t',
        rw (go, stripe) (e ∙ ap (λ k. some (k, t')) last),
        λ x. ground (arith, same x, fill_lem (i - recent) (recent + 1) i t x, cover x),
      )

-- The table that the constructor builds: with 32 rounds of fuel or more every one of its loops
-- ends, and entry `n` is the pool of `size_class n`.
pub build_table_lem :
    (fuel : ℕ)
    → 32 ≤ fuel
    → (t : PoolTable) × (build_table fuel ≡ some (3840, t)) × ((n : ℕ) → t n ≡ size_class n)
unfolding build_table last_of Result
build_table_lem fuel h =
    let (t₁, e₁, same₁) =
      stripe_lem 1024 32 (omega arith) (λ q x a b. omega arith) 31 fuel 1 32 0 (λ _. none)
        (omega arith) refl refl (omega arith) (λ x a b. omega arith) in
    let (t₂, e₂, same₂) =
      stripe_lem 2048 128 (omega arith) (λ q x a b. omega arith) 8 fuel 8 1024 992 t₁ (omega arith)
        refl refl (omega arith) (λ x a b. omega arith) in
    let (t₃, e₃, same₃) =
      stripe_lem 4096 256 (omega arith) (λ q x a b. omega arith) 8 fuel 8 2048 1920 t₂ (omega arith)
        refl refl (omega arith) (λ x a b. omega arith) in
    (t₃, rw (e₁, e₂, e₃) refl, λ n. ground (arith, same₁ n, same₂ n, same₃ n))

-- A pool has room for each size that it serves, and wastes less than a step of its stripe.
pub size_class_bounds :
    (n i : ℕ)
    → size_class n ≡ some i
    → (0 < n)
      × (n ≤ i)
      × (i ≤ 3840)
      × (i ≤ 992 → i < n + 32)
      × (i ≤ 1920 → i < n + 128)
      × (i < n + 256)
size_class_bounds n i e = ground arith

-- The sizes without a pool: 0, and all above 3840, though MAX_ALLOC_SIZE is 4096.
pub size_class-eq-none : (n : ℕ) → (size_class n ≡ none) ↔ ((n ≡ 0) ⊎ (3840 < n))
size_class-eq-none n = (λ e. ground arith, λ e. ground arith)
