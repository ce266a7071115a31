-- ===== src/Guard.antt =====
-- Threads whose calls run between the constructor and the destructor of a guard over one lock
-- (win-iocp/win-iocp/FastSpinLock.hpp, `FastSpinlockGuard`; `std::lock_guard`), one access at a
-- time, in any interleaving.
pub mod Atomic
pub mod Inside
pub mod Committed
pub mod Refine
use windows_iocp_network.Base.{
  ℕ, ◌≤◌, ◌≡◌, Bool, true, false, Option, none, some, List, [], ◌∷◌, ◌++◌, Outcome, done, replicate,
  total,
}

-- A lock: the moves of one thread on its flag. A guard's constructor starts at `entry`, for an
-- exclusive one and for another, and an exclusive one ends at `holding`.
pub record Lock (Flag Pc : Type 0) : Type 1 where
  pub Move : Flag → Pc → Flag → Pc → Type 0
  pub idle : Pc
  pub entry : Bool → Pc
  pub holding : Pc
  pub is_holding : Pc → Bool
  pub new_flag : Flag

-- Up to `limit` threads exclude each other.
pub record IsExclusive {Flag Pc : Type 0} (lock : Lock Flag Pc) (limit : ℕ) : Type 1 where
  pub Inv : ℕ → Flag → List Pc → Type 0
  pub new-Inv : (n : ℕ) → n ≤ limit → Inv n lock.new_flag (replicate n lock.idle)
  pub Move-Inv :
      (n : ℕ) (before after : List Pc) {f f' : Flag} {p p' : Pc}
      → n ≤ limit
      → lock.Move f p f' p'
      → Inv n f (before ++ p ∷ after)
      → Inv n f' (before ++ p' ∷ after)
  pub holders : Pc → ℕ
  pub holding-counts : holders lock.holding ≡ 1
  pub one_holder : (n : ℕ) (f : Flag) (ps : List Pc) → Inv n f ps → total holders ps ≤ 1

-- A call under an exclusive guard: its local state, the next access to the shared data, and what it
-- returns when there is none left.
pub record Body (Call Local Data Result : Type 0) : Type 0 where
  pub start : Call → Local
  pub access : Local → Data → Outcome (Local × Data)
  pub result : Local → Option Result

module _ {Flag Pc Call Local Data Result : Type 0} (lock : Lock Flag Pc)
    (body : Body Call Local Data Result) where
  -- Where a thread stands: in the constructor of an exclusive guard, between it and the destructor,
  -- or in the constructor of a guard that is not exclusive.
  pub data Place : Type 0 where
    outside : Place
    entering : Call → Pc → Place
    inside : Call → Local → Place
    reading : Pc → Place

  -- One access of one thread, to the lock's flag or to the data, and the calls that it ends.
  pub data Act (flag : Flag) (d : Data)
      : Place → Flag → Data → Place → List (Call × Result) → Type 0 where
    constructs :
        (c : Call) {flag' : Flag}
        → lock.Move flag lock.idle flag' (lock.entry true)
        → Act flag d outside flag' d (entering c (lock.entry true)) []
    waits :
        (c : Call) {flag' : Flag} {p p' : Pc}
        → lock.Move flag p flag' p'
        → lock.is_holding p' ≡ false
        → Act flag d (entering c p) flag' d (entering c p') []
    enters :
        (c : Call) {flag' : Flag} {p : Pc}
        → lock.Move flag p flag' lock.holding
        → Act flag d (entering c p) flag' d (inside c (body.start c)) []
    accesses :
        (c : Call) {l l' : Local} {d' : Data}
        → body.result l ≡ none
        → body.access l d ≡ done (l', d')
        → Act flag d (inside c l) flag d' (inside c l') []
    destructs :
        (c : Call) {l : Local} {r : Result} {flag' : Flag}
        → body.result l ≡ some r
        → lock.Move flag lock.holding flag' lock.idle
        → Act flag d (inside c l) flag' d outside ((c, r) ∷ [])
    constructs_shared :
        {flag' : Flag}
        → lock.Move flag lock.idle flag' (lock.entry false)
        → Act flag d outside flag' d (reading (lock.entry false)) []
    waits_shared :
        {flag' : Flag} {p p' : Pc}
        → lock.Move flag p flag' p'
        → Act flag d (reading p) flag' d (reading p') []

  -- The `log` has the calls that have returned, the last first.
  pub record System : Type 0 where
    pub flag : Flag
    pub shared : Data
    pub threads : List Place
    pub log : List (Call × Result)

  pub data Step : System → System → Type 0 where
    step :
        (before after : List Place) {flag flag' : Flag} {d d' : Data} {p p' : Place}
        {ended log : List (Call × Result)}
        → Act flag d p flag' d' p' ended
        → Step
            (record { flag = flag; shared = d; threads = before ++ p ∷ after; log = log })
            (record {
              flag = flag';
              shared = d';
              threads = before ++ p' ∷ after;
              log = ended ++ log;
            })

  pub data Reach (s : System) : System → Type 0 where
    here : Reach s s
    next : {t u : System} → Reach s t → Step t u → Reach s u

  -- A new lock, the data as it is, and `n` threads.
  abbrev pub fresh : ℕ → Data → System
  fresh n d = record { flag = lock.new_flag; shared = d; threads = replicate n outside; log = [] }
