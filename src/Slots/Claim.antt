-- ===== src/Slots/Claim.antt =====
-- What `claim_slot` and `release_slot` do to the pool.
use statsig_cpp_core.Prelude.{
  ℕ, zero, suc, ◌+◌, ◌<◌, ◌≡◌, refl, ◌⊎◌, inl, inr, Option, none, some, List, [], ◌∷◌, length, set,
  get_elem?, arith,
}
use statsig_cpp_core.Json.{ℤ, pos, negsuc}
use statsig_cpp_core.Slots.{claim_loop, claim_slot}

module _ {A : Type 0} where
  -- No slot is free.
  abbrev pub IsFull : List (Option A) → Type 0
  IsFull [] = Unit
  IsFull (none ∷ s) = ⊥
  IsFull (some c ∷ s) = IsFull s

  -- `k` is the lowest free slot.
  abbrev pub FirstFree : List (Option A) → ℕ → Type 0
  FirstFree [] k = ⊥
  FirstFree (none ∷ s) zero = Unit
  FirstFree (none ∷ s) (suc k) = ⊥
  FirstFree (some c ∷ s) zero = ⊥
  FirstFree (some c ∷ s) (suc k) = FirstFree s k

  pub FirstFree-lt : (s : List (Option A)) (k : ℕ) → FirstFree s k → k < length s
  FirstFree-lt [] k h = absurd h
  FirstFree-lt (none ∷ s) zero h = omega arith
  FirstFree-lt (none ∷ s) (suc k) h = absurd h
  FirstFree-lt (some c ∷ s) zero h = absurd h
  FirstFree-lt (some c ∷ s) (suc k) h = omega (arith, FirstFree-lt s k h)

  pub FirstFree-free : (s : List (Option A)) (k : ℕ) → FirstFree s k → get_elem? s k ≡ some none
  FirstFree-free [] k h = absurd h
  FirstFree-free (none ∷ s) zero h = refl
  FirstFree-free (none ∷ s) (suc k) h = absurd h
  FirstFree-free (some c ∷ s) zero h = absurd h
  FirstFree-free (some c ∷ s) (suc k) h = FirstFree-free s k h

  -- The outcome of a claim: none of the slots is free, the result is -1 and nothing changes; or `k`
  -- is the lowest free slot, the result is `k` counted from `i`, and `cbs` is stored there.
  abbrev pub Claims : ℕ → List (Option A) → Option A → ℤ × List (Option A) → Type 0
  Claims i s cbs r =
      (IsFull s × (r ≡ (negsuc 0, s)))
      ⊎ ((k : ℕ) × FirstFree s k × (r ≡ (pos (i + k), set s k cbs)))

  claim_loop-Claims :
      (i : ℕ) (s : List (Option A)) (cbs : Option A) → Claims i s cbs (claim_loop i s cbs)
  unfolding claim_loop
  claim_loop-Claims i [] cbs = inl (tt, refl)
  claim_loop-Claims i (none ∷ s) cbs = inr (0, tt, ground arith)
  claim_loop-Claims i (some c ∷ s) cbs = elim (claim_loop-Claims (suc i) s cbs) [
    | inl (full, e) ↦ inl (full, rw (e, claim_loop) refl)
    | inr (k, free, e) ↦ inr (suc k, free, rw (e, claim_loop) (ground arith))
  ]

  pub claim_slot-Claims : (s : List (Option A)) (cbs : Option A) → Claims 0 s cbs (claim_slot s cbs)
  unfolding claim_slot
  claim_slot-Claims s cbs = claim_loop-Claims 0 s cbs

  -- The same, without the recursion of the code: a free slot is one that holds a null pointer.
  abbrev pub IsFree : List (Option A) → ℕ → Type 0
  IsFree s j = get_elem? s j ≡ some none

  FirstFree-lowest : (s : List (Option A)) (k j : ℕ) → FirstFree s k → j < k → ¬ IsFree s j
  FirstFree-lowest [] k j h lt e = absurd h
  FirstFree-lowest (none ∷ s) zero j h lt e = elim lt [ ]
  FirstFree-lowest (none ∷ s) (suc k) j h lt e = absurd h
  FirstFree-lowest (some c ∷ s) zero j h lt e = absurd h
  FirstFree-lowest (some c ∷ s) (suc k) zero h lt e = cc
  FirstFree-lowest (some c ∷ s) (suc k) (suc j) h lt e = FirstFree-lowest s k j h (omega arith) e

  IsFull-no_vacancy : (s : List (Option A)) (j : ℕ) → IsFull s → ¬ IsFree s j
  IsFull-no_vacancy [] j h e = cc
  IsFull-no_vacancy (none ∷ s) j h e = absurd h
  IsFull-no_vacancy (some c ∷ s) zero h e = cc
  IsFull-no_vacancy (some c ∷ s) (suc j) h e = IsFull-no_vacancy s j h e

  -- claim_slot on any pool: either no slot is free, and then it returns -1 and changes nothing; or
  -- it returns the lowest free slot and stores the callbacks there, and only there.
  pub claim_slot_lowest :
      (s : List (Option A)) (cbs : Option A)
      → (((j : ℕ) → ¬ IsFree s j) × (claim_slot s cbs ≡ (negsuc 0, s)))
        ⊎ ((k : ℕ) × IsFree s k
            × ((j : ℕ) → j < k → ¬ IsFree s j)
            × (claim_slot s cbs ≡ (pos k, set s k cbs)))
  claim_slot_lowest s cbs = elim (claim_slot-Claims s cbs) [
    | inl (full, e) ↦ inl (λ j. IsFull-no_vacancy s j full, e)
    | inr (k, free, e) ↦
        inr (k, FirstFree-free s k free, λ j. FirstFree-lowest s k j free, ground arith)
  ]
