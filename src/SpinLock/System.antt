-- ===== src/SpinLock/System.antt =====
-- Threads over one `FastSpinlock`, in any interleaving.
use windows_iocp_network.Base.{ℕ, List, ◌∷◌, ◌++◌, replicate}
use windows_iocp_network.SpinLock.{Pc, idle, Move}

pub record System : Type 0 where
  pub flag : ℕ
  pub threads : List Pc

-- One thread, anywhere in the list, makes a move.
pub data Step : System → System → Type 0 where
  step :
      (before after : List Pc) {flag flag' : ℕ} {p p' : Pc}
      → Move flag p flag' p'
      → Step
          (record { flag = flag; threads = before ++ p ∷ after })
          (record { flag = flag'; threads = before ++ p' ∷ after })

pub data Reach (s : System) : System → Type 0 where
  here : Reach s s
  next : {t u : System} → Reach s t → Step t u → Reach s u

-- A new lock, and `n` threads.
abbrev pub fresh : ℕ → System
fresh n = record { flag = 0; threads = replicate n idle }
