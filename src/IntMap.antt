-- ===== src/IntMap.antt =====
-- What the players use of `std::map<int, T>`: the pairs in the order of their keys.
use windows_iocp_network.Base.{
  ◌≡◌, refl, true, Option, none, some, List, [], ◌∷◌, arith, if◌then◌else◌, ℤ, ltb_ℤ, eqb_ℤ,
  eqb_ℤ→eq,
}

abbrev pub IntMap : Type 0 → Type 0
IntMap V = List (ℤ × V)

module _ {V : Type 0} where
  abbrev pub find : ℤ → IntMap V → Option V
  find k [] = none
  find k ((j, w) ∷ m) = if eqb_ℤ k j then some w else find k m

  -- `insert`: a key that is there keeps its value.
  abbrev pub insert : ℤ → V → IntMap V → IntMap V
  insert k v [] = (k, v) ∷ []
  insert k v ((j, w) ∷ m) =
      if ltb_ℤ k j
      then (k, v) ∷ (j, w) ∷ m
      else (if eqb_ℤ k j then (j, w) ∷ m else (j, w) ∷ insert k v m)

  -- `m[k] = v`
  abbrev pub assign : ℤ → V → IntMap V → IntMap V
  assign k v [] = (k, v) ∷ []
  assign k v ((j, w) ∷ m) =
      if ltb_ℤ k j
      then (k, v) ∷ (j, w) ∷ m
      else (if eqb_ℤ k j then (k, v) ∷ m else (j, w) ∷ assign k v m)

  abbrev pub erase : ℤ → IntMap V → IntMap V
  erase k [] = []
  erase k ((j, w) ∷ m) = if eqb_ℤ k j then m else (j, w) ∷ erase k m

  -- All keys are above `k`.
  abbrev pub Above : ℤ → IntMap V → Type 0
  Above k [] = Unit {0}
  Above k ((j, w) ∷ m) = (ltb_ℤ k j ≡ true) × Above k m

  abbrev pub IsSorted : IntMap V → Type 0
  IsSorted [] = Unit {0}
  IsSorted ((j, w) ∷ m) = Above j m × IsSorted m

  pub Above-trans : (k j : ℤ) (m : IntMap V) → ltb_ℤ k j ≡ true → Above j m → Above k m
  Above-trans k j [] h a = tt
  Above-trans k j ((i, w) ∷ m) h a = (ground arith, Above-trans k j m h a.1)

  pub find-Above : (k : ℤ) (m : IntMap V) → Above k m → find k m ≡ none
  find-Above k [] a = refl
  find-Above k ((j, w) ∷ m) a = ground (arith, find-Above k m a.1)

  pub find-assign :
      (j k : ℤ) (v : V) (m : IntMap V)
      → find j (assign k v m) ≡ (if eqb_ℤ j k then some v else find j m)
  find-assign j k v [] = refl
  find-assign j k v ((i, w) ∷ m) = ground (arith, find-assign j k v m)

  pub find-insert :
      (j k : ℤ) (v : V) (m : IntMap V)
      → IsSorted m
      → find j (insert k v m)
        ≡ (if eqb_ℤ j k then elim (find k m) [ none ↦ some v | some w ↦ some w ] else find j m)
  find-insert j k v [] s = refl
  find-insert j k v ((i, w) ∷ m) s = ground (
    arith,
    find-insert j k v m s.1,
    find-Above k m,
    Above-trans k i m,
    find-Above j m,
    Above-trans j i m,
  )

  pub find-erase :
      (j k : ℤ) (m : IntMap V)
      → IsSorted m
      → find j (erase k m) ≡ (if eqb_ℤ j k then none else find j m)
  find-erase j k [] s = ground arith
  find-erase j k ((i, w) ∷ m) s =
      ground (arith, find-erase j k m s.1, find-Above j m, Above-trans j i m, eqb_ℤ→eq k i)

  Above-assign :
      (j k : ℤ) (v : V) (m : IntMap V) → ltb_ℤ j k ≡ true → Above j m → Above j (assign k v m)
  Above-assign j k v [] h a = (h, tt)
  Above-assign j k v ((i, w) ∷ m) h a = ground (arith, Above-assign j k v m h a.1)

  pub assign-IsSorted : (k : ℤ) (v : V) (m : IntMap V) → IsSorted m → IsSorted (assign k v m)
  assign-IsSorted k v [] s = (tt, tt)
  assign-IsSorted k v ((i, w) ∷ m) s =
      ground (
        arith,
        Above-trans k i m,
        Above-assign i k v m,
        assign-IsSorted k v m s.1,
        s.0,
        eqb_ℤ→eq k i,
      )

  Above-insert :
      (j k : ℤ) (v : V) (m : IntMap V) → ltb_ℤ j k ≡ true → Above j m → Above j (insert k v m)
  Above-insert j k v [] h a = (h, tt)
  Above-insert j k v ((i, w) ∷ m) h a = ground (arith, Above-insert j k v m h a.1)

  pub insert-IsSorted : (k : ℤ) (v : V) (m : IntMap V) → IsSorted m → IsSorted (insert k v m)
  insert-IsSorted k v [] s = (tt, tt)
  insert-IsSorted k v ((i, w) ∷ m) s =
      ground (arith, Above-trans k i m, Above-insert i k v m, insert-IsSorted k v m s.1, s.0)

  Above-erase : (j k : ℤ) (m : IntMap V) → Above j m → Above j (erase k m)
  Above-erase j k [] a = tt
  Above-erase j k ((i, w) ∷ m) a = ground (arith, Above-erase j k m a.1)

  pub erase-IsSorted : (k : ℤ) (m : IntMap V) → IsSorted m → IsSorted (erase k m)
  erase-IsSorted k [] s = tt
  erase-IsSorted k ((i, w) ∷ m) s = ground (arith, Above-erase i k m s.0, erase-IsSorted k m s.1)
