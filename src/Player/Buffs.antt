-- ===== src/Player/Buffs.antt =====
-- How the buffs of Player.hpp run out.
use windows_iocp_network.Base.{
  ℕ, zero, suc, ◌+◌, ◌-◌, ◌*◌, ◌≤◌, ◌<◌, ◌≡◌, refl, ap, ◌∙◌, sym, Bool, true, false, [], ◌∷◌, arith,
  ltb, leb, if◌then◌else◌, ℤ, pos, negsuc, pos_part, ◌-ℤ◌, ltb_ℤ, leb_ℤ, to_int, long_limit,
  Outcome, done, ◌>>=◌, dec_lt,
}
use native.Mathlib.Nat.{zero-mul}
use windows_iocp_network.IntMap.{IntMap}
use windows_iocp_network.Player.{Player, decay_buffs, decay_tick_buff}

-- Every duration is a positive `int`.
abbrev pub AllRunning : IntMap ℤ → Type 0
AllRunning [] = Unit {0}
AllRunning ((b, pos d) ∷ m) = (0 < d) × (d < long_limit) × AllRunning m
AllRunning ((b, negsuc d) ∷ m) = ⊥

-- What is left after a time: the buffs that last longer, each for the rest of its duration.
abbrev pub left_after : ℕ → IntMap ℤ → IntMap ℤ
left_after time [] = []
left_after time ((b, d) ∷ m) =
    if ltb_ℤ (pos time) d then (b, d -ℤ pos time) ∷ left_after time m else left_after time m

left-lt :
    (h d : ℕ)
    → h < d
    → d < long_limit
    → (to_int (pos d -ℤ pos h) ≡ done (pos (d - h)))
      × (leb_ℤ (pos (d - h)) (pos 0) ≡ false)
      × (ltb_ℤ (pos h) (pos d) ≡ true)
      × (pos d -ℤ pos h ≡ pos (d - h))
left-lt h d q l = (ground arith, ground arith, ground arith, ground arith)

left-le :
    (h d : ℕ)
    → d ≤ h
    → h < long_limit
    → (to_int (pos d -ℤ pos h) ≡ done (pos d -ℤ pos h))
      × (leb_ℤ (pos d -ℤ pos h) (pos 0) ≡ true)
      × (ltb_ℤ (pos h) (pos d) ≡ false)
left-le h d q l = (ground arith, ground arith, ground arith)

decay_buffs_lem :
    (h : ℕ) (m : IntMap ℤ)
    → h < long_limit
    → AllRunning m
    → decay_buffs (pos h) m ≡ done (left_after h m)
unfolding decay_buffs
decay_buffs_lem h [] l r = refl
decay_buffs_lem h ((b, negsuc d) ∷ m) l r = absurd r
decay_buffs_lem h ((b, pos d) ∷ m) l r =
    let ih = decay_buffs_lem h m l r.2 in
    elim (dec_lt h d) [
      | yes q ↦ let (t, u, v, w) = left-lt h d q r.1 in rw (t, ih, u, v, w) refl
      | no q ↦ let (t, u, v) = left-le h d (omega arith) l in rw (t, ih, u, v) refl
    ]

left_after-AllRunning : (h : ℕ) (m : IntMap ℤ) → AllRunning m → AllRunning (left_after h m)
left_after-AllRunning h [] r = tt
left_after-AllRunning h ((b, negsuc d) ∷ m) r = absurd r
left_after-AllRunning h ((b, pos d) ∷ m) r =
    let ih = left_after-AllRunning h m r.2 in
    elim (dec_lt h d) [
      | yes q ↦ let (t, u, v, w) = left-lt h d q r.1 in rw (v, w) (omega arith, omega arith, ih)
      | no q ↦ let v : ltb_ℤ (pos h) (pos d) ≡ false = ground arith in rw v ih
    ]

left_after-left_after :
    (t u : ℕ) (m : IntMap ℤ) → left_after u (left_after t m) ≡ left_after (t + u) m
left_after-left_after t u [] = refl
left_after-left_after t u ((b, pos d) ∷ m) = ground (arith, left_after-left_after t u m)
left_after-left_after t u ((b, negsuc d) ∷ m) = ground (arith, left_after-left_after t u m)

left_after-zero : (m : IntMap ℤ) → AllRunning m → left_after 0 m ≡ m
left_after-zero [] r = refl
left_after-zero ((k, negsuc d) ∷ m) r = absurd r
left_after-zero ((k, pos d) ∷ m) r = ground (arith, left_after-zero m r.2)

-- `DecayTickBuff` a number of times.
unfoldable pub ticks : ℕ → Player → Outcome Player
unfolding decay_tick_buff
ticks zero p = done p
ticks (suc n) p = do p' ← decay_tick_buff p; ticks n p'

ticks-left_after :
    (h n : ℕ) (p : Player)
    → p.heart_beat ≡ pos h
    → h < long_limit
    → AllRunning p.buff_list
    → ticks n p ≡ done (record p { buff_list = left_after (n * h) p.buff_list })
unfolding ticks decay_tick_buff
ticks-left_after h zero p e l r =
    ap (λ m. done (record p { buff_list = m }))
      (sym (ap (λ t. left_after t p.buff_list) (zero-mul h) ∙ left_after-zero p.buff_list r))
ticks-left_after h (suc n) p e l r =
    let q : Player = record p { buff_list = left_after h p.buff_list } in
    let first : decay_tick_buff p ≡ done q = rw (e, decay_buffs_lem h p.buff_list l r) refl in
    let rest = ticks-left_after h n q e l (left_after-AllRunning h p.buff_list r) in
    rw first (
      rest
      ∙ ap (λ m. done (record p { buff_list = m }))
          (left_after-left_after h (n * h) p.buff_list
            ∙ ap (λ t. left_after t p.buff_list) (grind arith)))

-- The longest duration.
abbrev pub longest : IntMap ℤ → ℕ
longest [] = 0
longest ((b, d) ∷ m) = if ltb (longest m) (pos_part d) then pos_part d else longest m

abbrev pub is_empty : IntMap ℤ → Bool
is_empty [] = true
is_empty (b ∷ m) = false

is_empty-left_after :
    (time : ℕ) (m : IntMap ℤ) → is_empty (left_after time m) ≡ leb (longest m) time
is_empty-left_after time [] = ground arith
is_empty-left_after time ((k, pos d) ∷ m) = ground (arith, is_empty-left_after time m)
is_empty-left_after time ((k, negsuc d) ∷ m) = ground (arith, is_empty-left_after time m)

-- Over `n` calls of `DecayTickBuff` on a player whose heartbeat is a non-negative `int` and whose
-- buffs have positive durations, none overflows; the buffs that last longer than `n` heartbeats are
-- left, each for the rest of its duration, and no other field changes; and no buff is left if and
-- only if `n` heartbeats reach the longest duration.
pub ticks_lem :
    (h n : ℕ) (p : Player)
    → p.heart_beat ≡ pos h
    → h < long_limit
    → AllRunning p.buff_list
    → (ticks n p ≡ done (record p { buff_list = left_after (n * h) p.buff_list }))
      × (is_empty (left_after (n * h) p.buff_list) ≡ leb (longest p.buff_list) (n * h))
ticks_lem h n p e l r = (ticks-left_after h n p e l r, is_empty-left_after (n * h) p.buff_list)
