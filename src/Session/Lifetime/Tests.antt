-- ===== src/Session/Lifetime/Tests.antt =====
-- A request on a session without a reference takes one for its context and posts it; another thread
-- dequeues the context and deletes it, and a second request on the session does so at once.
use windows_iocp_network.Base.{◌+◌, ◌≡◌, refl, [], ◌∷◌, arith, total, ◌==◌, if◌then◌else◌}
use windows_iocp_network.Session.Lifetime.{
  holds, notifies, Lives, increments, added, decrements, last, calls_on_release, parks, unparks,
  step, Reach, here, next, unreferenced, references, notices, Reach-released,
}

-- `OnRelease` has run once, and the first thread is about to call it again.
abbrev called_twice : Lives
called_twice = record {
  count = 0;
  parked = 0;
  firsts = 2;
  on_releases = 1;
  threads = notifies 0 ∷ holds 0 ∷ [];
}

abbrev Reached : Lives → Type 0
Reached s = Reach (unreferenced 2) s

called_once : Reached (record {
  count = 0;
  parked = 0;
  firsts = 1;
  on_releases = 1;
  threads = holds 0 ∷ holds 0 ∷ [];
})
called_once =
    let one = holds 0 ∷ [] in
    next
      (next
        (next
          (next
            (next
              (next (next here (step [] one (increments 0)))
                (step [] one (added 0 1 (omega arith))))
              (step [] one (parks 0)))
            (step one [] (unparks 0 0 refl)))
          (step one [] (decrements 0 0 refl)))
        (step one [] (last 0)))
      (step one [] (calls_on_release 0))

called_again : Reached called_twice
called_again =
    let one = holds 0 ∷ [] in
    next
      (next
        (next (next called_once (step [] one (increments 0)))
          (step [] one (added 0 1 (omega arith))))
        (step [] one (decrements 0 0 refl)))
      (step [] one (last 0))

Reach-released_example :
    (called_twice.count ≡ called_twice.parked + total references called_twice.threads)
    × (called_twice.on_releases
          + total notices called_twice.threads
          + (if called_twice.parked + total references called_twice.threads == 0 then 0 else 1)
        ≡ called_twice.firsts)
Reach-released_example = Reach-released 2 called_again
