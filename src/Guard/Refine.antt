-- ===== src/Guard/Refine.antt =====
-- What runs under an exclusive guard is one step: the interleaved accesses do what the calls do one
-- after another.
use windows_iocp_network.Base.{
  ℕ, ◌≤◌, ◌≡◌, refl, sym, subst, true, false, none, some, inl, inr, List, ◌∷◌, ◌++◌, arith, done,
  total-middle, total-replicate, replicate,
}
use windows_iocp_network.Guard.{
  Lock, IsExclusive, Body, Place, outside, entering, inside, reading, constructs, waits, enters,
  accesses, destructs, constructs_shared, waits_shared, System, Step, step, Reach, here, next,
  fresh,
}
use windows_iocp_network.Guard.Atomic.{Runs, begun, accessed, Atomic}
use windows_iocp_network.Guard.Inside.{
  lock_places, lock_places-replicate, is_inside, none_inside-AllRunning, idle-IsRunning,
  AllRunning-middle, AllRunning-append,
}
use windows_iocp_network.Guard.Committed.{IsAtomic, quiet-eq, alone, Step-locks}

module _ {Flag Pc Call Local Data Result : Type 0} (lock : Lock Flag Pc)
    (body : Body Call Local Data Result) {limit : ℕ} (x : IsExclusive lock limit) where
  module _ (a : Atomic body) {n : ℕ} {d₀ : Data} where
    -- An access that leaves the data alone, of a thread that is inside neither before nor after.
    unchanged :
        {flag flag' : Flag} {d : Data} {log : List (Call × Result)}
        (before after : List (Place lock body)) (p p' : Place lock body)
        → is_inside lock body p ≡ 0
        → is_inside lock body p' ≡ 0
        → (v : IsAtomic lock body x a n d₀
            (record { flag = flag; shared = d; threads = before ++ p ∷ after; log = log }))
        → x.Inv n flag' (lock_places lock body (before ++ p' ∷ after))
        → IsAtomic lock body x a n d₀
            (record { flag = flag'; shared = d; threads = before ++ p' ∷ after; log = log })
    unchanged {d} before after p p' e e' v locks =
        let (xs, y, zs) = AllRunning-middle lock body v.committed d before after p v.running in
        record {
          locks = locks;
          committed = v.committed;
          replay = v.replay;
          running =
              AllRunning-append lock body v.committed d before after p' xs
                (idle-IsRunning lock body v.committed d p' e') zs;
          quiet = elim v.quiet [
            | inl same ↦ inl same
            | inr some_call ↦ inr (
                omega (
                  arith,
                  some_call,
                  e,
                  e',
                  total-middle (is_inside lock body) before p after,
                  total-middle (is_inside lock body) before p' after,
                ))
          ];
        }

    enters-IsAtomic :
        {flag flag' : Flag} {d : Data} {log : List (Call × Result)}
        (before after : List (Place lock body)) (c : Call) (p : Pc)
        → (v : IsAtomic lock body x a n d₀ (record {
          flag = flag;
          shared = d;
          threads = before ++ entering c p ∷ after;
          log = log;
        }))
        → x.Inv n flag' (lock_places lock body before ++ lock.holding ∷ lock_places lock body after)
        → x.Inv n flag' (lock_places lock body (before ++ inside c (body.start c) ∷ after))
        → IsAtomic lock body x a n d₀ (record {
          flag = flag';
          shared = d;
          threads = before ++ inside c (body.start c) ∷ after;
          log = log;
        })
    enters-IsAtomic {d} before after c p v held locks =
        let (xs, zs) = alone lock body x n _ before after held in
        let same : d ≡ v.committed =
          quiet-eq lock body x v (
            omega
              (arith, xs, zs, total-middle (is_inside lock body) before (entering c p) after)) in
        record {
          locks = locks;
          committed = v.committed;
          replay = v.replay;
          running =
              AllRunning-append lock body v.committed d before after (inside c (body.start c))
                (none_inside-AllRunning lock body v.committed d before xs)
                (subst (Runs body c v.committed (body.start c)) (sym same) begun)
                (none_inside-AllRunning lock body v.committed d after zs);
          quiet = inl same;
        }

    accesses-IsAtomic :
        {flag : Flag} {d d' : Data} {log : List (Call × Result)}
        (before after : List (Place lock body)) (c : Call) (l l' : Local)
        → body.result l ≡ none
        → body.access l d ≡ done (l', d')
        → (v : IsAtomic lock body x a n d₀
            (record { flag = flag; shared = d; threads = before ++ inside c l ∷ after; log = log }))
        → x.Inv n flag (lock_places lock body before ++ lock.holding ∷ lock_places lock body after)
        → x.Inv n flag (lock_places lock body (before ++ inside c l' ∷ after))
        → IsAtomic lock body x a n d₀ (record {
          flag = flag;
          shared = d';
          threads = before ++ inside c l' ∷ after;
          log = log;
        })
    accesses-IsAtomic {d} {d'} before after c l l' r e v held locks =
        let (xs, zs) = alone lock body x n _ before after held in
        let (_, runs, _) =
          AllRunning-middle lock body v.committed d before after (inside c l) v.running in
        record {
          locks = locks;
          committed = v.committed;
          replay = v.replay;
          running =
              AllRunning-append lock body v.committed d' before after (inside c l')
                (none_inside-AllRunning lock body v.committed d' before xs) (accessed runs r e)
                (none_inside-AllRunning lock body v.committed d' after zs);
          quiet =
              inr (omega (arith, total-middle (is_inside lock body) before (inside c l') after));
        }

    destructs-IsAtomic :
        {flag flag' : Flag} {d : Data} {log : List (Call × Result)}
        (before after : List (Place lock body)) (c : Call) (l : Local) (r : Result)
        → body.result l ≡ some r
        → (v : IsAtomic lock body x a n d₀
            (record { flag = flag; shared = d; threads = before ++ inside c l ∷ after; log = log }))
        → x.Inv n flag (lock_places lock body before ++ lock.holding ∷ lock_places lock body after)
        → x.Inv n flag' (lock_places lock body (before ++ outside ∷ after))
        → IsAtomic lock body x a n d₀ (record {
          flag = flag';
          shared = d;
          threads = before ++ outside ∷ after;
          log = (c, r) ∷ log;
        })
    destructs-IsAtomic {d} before after c l r e v held locks =
        let (xs, zs) = alone lock body x n _ before after held in
        let (_, runs, _) =
          AllRunning-middle lock body v.committed d before after (inside c l) v.running in
        record {
          locks = locks;
          committed = d;
          replay = (v.committed, v.replay, a.runs-call c v.committed d l r runs e);
          running =
              AllRunning-append lock body d d before after outside
                (none_inside-AllRunning lock body d d before xs) tt
                (none_inside-AllRunning lock body d d after zs);
          quiet = inl refl;
        }

    Step-IsAtomic :
        {s t : System lock body}
        → n ≤ limit
        → Step lock body s t
        → IsAtomic lock body x a n d₀ s
        → IsAtomic lock body x a n d₀ t
    Step-IsAtomic few (step before after {d} (constructs c m)) v =
        unchanged before after outside (entering c (lock.entry true)) refl refl v
          (Step-locks lock body x {d = d} n before after few (constructs c m) v.locks).2
    Step-IsAtomic few (step before after {d} (waits c {p} {p'} m w)) v =
        unchanged before after (entering c p) (entering c p') refl refl v
          (Step-locks lock body x {d = d} n before after few (waits c m w) v.locks).2
    Step-IsAtomic few (step before after {d} (enters c {p} m)) v =
        let (_, held, locks) =
          Step-locks lock body x {d = d} n before after few (enters c m) v.locks in
        enters-IsAtomic before after c p v held locks
    Step-IsAtomic few (step before after {d} (accesses c {l} {l'} r e)) v =
        let (held, _, locks) =
          Step-locks lock body x {d = d} n before after few (accesses c r e) v.locks in
        accesses-IsAtomic before after c l l' r e v held locks
    Step-IsAtomic few (step before after {d} (destructs c {l} {r} e m)) v =
        let (held, _, locks) =
          Step-locks lock body x {d = d} n before after few (destructs c e m) v.locks in
        destructs-IsAtomic before after c l r e v held locks
    Step-IsAtomic few (step before after {d} (constructs_shared m)) v =
        unchanged before after outside (reading (lock.entry false)) refl refl v
          (Step-locks lock body x {d = d} n before after few (constructs_shared m) v.locks).2
    Step-IsAtomic few (step before after {d} (waits_shared {p} {p'} m)) v =
        unchanged before after (reading p) (reading p') refl refl v
          (Step-locks lock body x {d = d} n before after few (waits_shared m) v.locks).2

  fresh-IsAtomic :
      (a : Atomic body) (n : ℕ) (d₀ : Data)
      → n ≤ limit
      → IsAtomic lock body x a n d₀ (fresh lock body n d₀)
  fresh-IsAtomic a n d₀ few =
      let none_inside = total-replicate (is_inside lock body) n outside refl in
      record {
        locks =
            subst (x.Inv n lock.new_flag) (sym (lock_places-replicate lock body n))
              (x.new-Inv n few);
        committed = d₀;
        replay = refl;
        running = none_inside-AllRunning lock body d₀ d₀ (replicate n outside) none_inside;
        quiet = inl refl;
      }

  -- With at most as many threads as the lock admits, at any moment of any interleaving: the calls
  -- that have returned did what they do one after another, in the order of their returns, and
  -- returned the same; the shared data is what they left, unless a call is inside its guard; and
  -- one that is has done its accesses so far from there, alone.
  pub Reach-IsAtomic :
      (a : Atomic body) {n : ℕ} {d₀ : Data} {s : System lock body}
      → n ≤ limit
      → Reach lock body (fresh lock body n d₀) s
      → IsAtomic lock body x a n d₀ s
  Reach-IsAtomic a {n} {d₀} few here = fresh-IsAtomic a n d₀ few
  Reach-IsAtomic a few (next r st) = Step-IsAtomic a few st (Reach-IsAtomic a few r)
