-- ===== src/Guard/Atomic.antt =====
-- What a guarded call does by itself, and the operation that does the same in one step.
use windows_iocp_network.Base.{
  ◌≡◌, none, some, List, [], ◌∷◌, Outcome, done, Safely, Safely-done, Safely-map, sym, ◌∙◌,
}
use windows_iocp_network.Guard.{Body}

module _ {Call Local Data Result : Type 0} (body : Body Call Local Data Result) where
  -- The accesses of one call, alone: from the data `d` to `d'`, where its local state is the index.
  pub data Runs (c : Call) (d : Data) : Local → Data → Type 0 where
    begun : Runs c d (body.start c) d
    accessed :
        {l l' : Local} {d' d'' : Data}
        → Runs c d l d'
        → body.result l ≡ none
        → body.access l d' ≡ done (l', d'')
        → Runs c d l' d''

  -- An operation that does in one step what the accesses of a call do alone.
  pub record Atomic : Type 0 where
    pub call : Call → Data → Outcome (Result × Data)
    pub runs-call :
        (c : Call) (d d' : Data) (l : Local) (r : Result)
        → Runs c d l d'
        → body.result l ≡ some r
        → call c d ≡ done (r, d')

  -- The calls of the log, the last first, one after another from `d₀`, with what each returned.
  abbrev pub IsReplay : Atomic → Data → List (Call × Result) → Data → Type 0
  IsReplay a d₀ [] d = d ≡ d₀
  IsReplay a d₀ ((c, r) ∷ log) d = (d₁ : Data) × IsReplay a d₀ log d₁ × (a.call c d₁ ≡ done (r, d))

  -- What holds at the start of a call, and stays with each access, holds of all its accesses alone.
  pub Runs-Progress :
      (Progress : Call → Data → Local → Data → Type 0)
      → ((c : Call) (d : Data) → Progress c d (body.start c) d)
      → ((c : Call) (d d' : Data) (l : Local)
          → Progress c d l d'
          → body.result l ≡ none
          → Safely (λ r. Progress c d r.0 r.1) (body.access l d'))
      → (c : Call) (d : Data) {l : Local} {d' : Data} → Runs c d l d'
      → Progress c d l d'
  Runs-Progress Progress first later c d begun = first c d
  Runs-Progress Progress first later c d (accessed {l} {l'} {d'} {d''} r e f) =
      Safely-done (λ s. Progress c d s.0 s.1) (body.access l d') f
        (later c d d' l (Runs-Progress Progress first later c d r) e)

  -- An operation is what the accesses of its calls do alone, if what is left to do from each place
  -- is what is left after the next access.
  pub Runs-rest :
      (call : Call → Data → Outcome (Result × Data)) (rest : Local → Data → Outcome (Result × Data))
      → ((c : Call) (d : Data) → rest (body.start c) d ≡ call c d)
      → ((l : Local) (d : Data)
          → body.result l ≡ none
          → Safely (λ r. rest r.0 r.1 ≡ rest l d) (body.access l d))
      → ((l : Local) (d : Data) (r : Result) → body.result l ≡ some r → rest l d ≡ done (r, d))
      → (c : Call) (d d' : Data) (l : Local) (r : Result) → Runs c d l d'
      → body.result l ≡ some r
      → call c d ≡ done (r, d')
  Runs-rest call rest first later end c d d' l r runs e =
      sym (
        Runs-Progress (λ c d l d'. rest l d' ≡ call c d) first
          (λ c d d' l p q.
            Safely-map (λ x. rest x.0 x.1 ≡ rest l d') (λ x. rest x.0 x.1 ≡ call c d)
              (body.access l d') (λ x h. h ∙ p) (later l d' q))
          c d runs)
      ∙ end l d' r e
