-- ===== src/Guard/Committed.antt =====
-- What holds of threads under an exclusive guard while a call is inside, and while none is.
use windows_iocp_network.Base.{
  ℕ, ◌<◌, ◌≤◌, ◌≡◌, sym, subst, ◌⊎◌, inl, inr, List, ◌∷◌, ◌++◌, arith, total, total-middle,
}
use windows_iocp_network.Guard.{
  Lock, IsExclusive, Body, Place, Act, constructs, waits, enters, accesses, destructs,
  constructs_shared, waits_shared, System,
}
use windows_iocp_network.Guard.Atomic.{Atomic, IsReplay}
use windows_iocp_network.Guard.Inside.{
  lock_place, lock_places, lock_places-middle, is_inside, inside-le-holders, AllRunning,
}

module _ {Flag Pc Call Local Data Result : Type 0} (lock : Lock Flag Pc)
    (body : Body Call Local Data Result) {limit : ℕ} (x : IsExclusive lock limit) where
  -- Each access is a move of the lock, or leaves it as it is.
  Act-Inv :
      {flag flag' : Flag} {d d' : Data} {p p' : Place lock body} {ended : List (Call × Result)}
      (n : ℕ) (before after : List Pc)
      → n ≤ limit
      → Act lock body flag d p flag' d' p' ended
      → x.Inv n flag (before ++ lock_place lock body p ∷ after)
      → x.Inv n flag' (before ++ lock_place lock body p' ∷ after)
  Act-Inv n before after few (constructs c m) v = x.Move-Inv n before after few m v
  Act-Inv n before after few (waits c m w) v = x.Move-Inv n before after few m v
  Act-Inv n before after few (enters c m) v = x.Move-Inv n before after few m v
  Act-Inv n before after few (accesses c r e) v = v
  Act-Inv n before after few (destructs c r m) v = x.Move-Inv n before after few m v
  Act-Inv n before after few (constructs_shared m) v = x.Move-Inv n before after few m v
  Act-Inv n before after few (waits_shared m) v = x.Move-Inv n before after few m v

  -- The committed data `d` is that of the log; it is the shared data unless a call is inside, and a
  -- call that is inside has run alone from there.
  pub record IsAtomic (a : Atomic body) (n : ℕ) (d₀ : Data) (s : System lock body) : Type 0 where
    pub locks : x.Inv n s.flag (lock_places lock body s.threads)
    pub committed : Data
    pub replay : IsReplay body a d₀ s.log committed
    pub running : AllRunning lock body committed s.shared s.threads
    pub quiet : (s.shared ≡ committed) ⊎ (0 < total (is_inside lock body) s.threads)

  pub quiet-eq :
      {a : Atomic body} {n : ℕ} {d₀ : Data} {s : System lock body} (v : IsAtomic a n d₀ s)
      → total (is_inside lock body) s.threads ≡ 0
      → s.shared ≡ v.committed
  quiet-eq v h = elim v.quiet [ inl e ↦ e | inr some_call ↦ absurd (omega (arith, h, some_call)) ]

  -- While one thread is inside, no other is.
  pub alone :
      (n : ℕ) (flag : Flag) (before after : List (Place lock body))
      → x.Inv n flag (lock_places lock body before ++ lock.holding ∷ lock_places lock body after)
      → (total (is_inside lock body) before ≡ 0) × (total (is_inside lock body) after ≡ 0)
  alone n flag before after v = omega (
    arith,
    x.one_holder n flag _ v,
    x.holding-counts,
    total-middle x.holders (lock_places lock body before) lock.holding
        (lock_places lock body after),
    inside-le-holders lock body limit x before,
    inside-le-holders lock body limit x after,
  )

  pub Step-locks :
      {flag flag' : Flag} {d d' : Data} {p p' : Place lock body} {ended : List (Call × Result)}
      (n : ℕ) (before after : List (Place lock body))
      → n ≤ limit
      → Act lock body flag d p flag' d' p' ended
      → x.Inv n flag (lock_places lock body (before ++ p ∷ after))
      → x.Inv n flag
          (lock_places lock body before ++ lock_place lock body p ∷ lock_places lock body after)
        × x.Inv n flag'
            (lock_places lock body before ++ lock_place lock body p' ∷ lock_places lock body after)
        × x.Inv n flag' (lock_places lock body (before ++ p' ∷ after))
  Step-locks {flag} {flag'} {p} {p'} n before after few act v =
      let at_p = λ (ps : List Pc). x.Inv n flag ps in
      let at_p' = λ (ps : List Pc). x.Inv n flag' ps in
      let v₁ = subst at_p (lock_places-middle lock body before after p) v in
      let v₂ = Act-Inv n (lock_places lock body before) (lock_places lock body after) few act v₁ in
      (v₁, v₂, subst at_p' (sym (lock_places-middle lock body before after p')) v₂)
