-- ===== src/Slots/Occupied.antt =====
-- How many slots are in use.
use statsig_cpp_core.Prelude.{
  ℕ, zero, suc, ◌≤◌, ◌<◌, ◌≡◌, ◌↔◌, refl, ap, inl, inr, Option, none, some, List, [], ◌∷◌, length,
  set, get_elem?, replicate, arith, length-set,
}
use statsig_cpp_core.Json.{negsuc}
use statsig_cpp_core.Slots.{claim_slot, release_slot}
use statsig_cpp_core.Slots.Claim.{
  IsFull, FirstFree-free, claim_slot-Claims, IsFree, claim_slot_lowest,
}

module _ {A : Type 0} where
  abbrev pub occupied : List (Option A) → ℕ
  occupied [] = 0
  occupied (none ∷ s) = occupied s
  occupied (some c ∷ s) = suc (occupied s)

  pub occupied-le-length : (s : List (Option A)) → occupied s ≤ length s
  occupied-le-length [] = omega arith
  occupied-le-length (none ∷ s) = omega (arith, occupied-le-length s)
  occupied-le-length (some c ∷ s) = omega (arith, occupied-le-length s)

  pub IsFull-occupied : (s : List (Option A)) → IsFull s → occupied s ≡ length s
  IsFull-occupied [] h = refl
  IsFull-occupied (none ∷ s) h = absurd h
  IsFull-occupied (some c ∷ s) h = ap suc (IsFull-occupied s h)

  pub occupied-fill :
      (s : List (Option A)) (k : ℕ) (c : A)
      → IsFree s k
      → occupied (set s k (some c)) ≡ suc (occupied s)
  occupied-fill [] k c h = cc
  occupied-fill (none ∷ s) zero c h = refl
  occupied-fill (some d ∷ s) zero c h = cc
  occupied-fill (none ∷ s) (suc k) c h = occupied-fill s k c h
  occupied-fill (some d ∷ s) (suc k) c h = ap suc (occupied-fill s k c h)

  pub occupied-clear :
      (s : List (Option A)) (k : ℕ) (c : A)
      → get_elem? s k ≡ some (some c)
      → suc (occupied (set s k none)) ≡ occupied s
  occupied-clear [] k c h = cc
  occupied-clear (none ∷ s) zero c h = cc
  occupied-clear (some d ∷ s) zero c h = refl
  occupied-clear (none ∷ s) (suc k) c h = occupied-clear s k c h
  occupied-clear (some d ∷ s) (suc k) c h = ap suc (occupied-clear s k c h)

  pub set_back :
      (s : List (Option A)) (k : ℕ) (c : Option A) → IsFree s k → set (set s k c) k none ≡ s
  set_back [] k c h = refl
  set_back (x ∷ s) zero c h = ground arith
  set_back (x ∷ s) (suc k) c h = ap (λ t. x ∷ t) (set_back s k c h)

  pub none_free-occupied : (s : List (Option A)) → ((j : ℕ) → ¬ IsFree s j) → occupied s ≡ length s
  none_free-occupied [] h = refl
  none_free-occupied (none ∷ s) h = absurd (h 0 refl)
  none_free-occupied (some c ∷ s) h = ap suc (none_free-occupied s (λ j. h (suc j)))

  pub occupied-lt-length : (s : List (Option A)) (k : ℕ) → IsFree s k → occupied s < length s
  occupied-lt-length [] k h = cc
  occupied-lt-length (none ∷ s) k h = omega (arith, occupied-le-length s)
  occupied-lt-length (some c ∷ s) zero h = cc
  occupied-lt-length (some c ∷ s) (suc k) h = omega (arith, occupied-lt-length s k h)

  -- Releasing what a claim returned restores the pool, whether the claim found a slot or not.
  pub release-claim :
      (s : List (Option A)) (cbs : Option A)
      → release_slot (claim_slot s cbs).1 (claim_slot s cbs).0 ≡ s
  unfolding release_slot
  release-claim s cbs = elim (claim_slot_lowest s cbs) [
    | inl (full, e) ↦ rw e refl
    | inr (k, free, _, e) ↦ rw e (set_back s k cbs free)
  ]

  -- A claim of a non-null pointer returns -1 exactly if every slot is in use.
  pub claim_fails_iff_full :
      (s : List (Option A)) (c : A)
      → ((claim_slot s (some c)).0 ≡ negsuc 0) ↔ (occupied s ≡ length s)
  claim_fails_iff_full s c = elim (claim_slot-Claims s (some c)) [
    | inl (full, e) ↦ (λ _. IsFull-occupied s full, λ _. rw e refl)
    | inr (k, free, e) ↦ (
      λ h. absurd (ground (arith, e)),
      λ h. absurd (
          omega (
            arith,
            occupied-le-length (set s k (some c)),
            occupied-fill s k c (FirstFree-free s k free),
            length-set s k (some c),
          )),
    )
  ]

pub occupied-empty : (A : Type 0) (n : ℕ) → occupied (replicate {A = Option A} n none) ≡ 0
occupied-empty A zero = refl
occupied-empty A (suc n) = occupied-empty A n
