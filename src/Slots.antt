-- ===== src/Slots.antt =====
-- The slot pool of src/persistent_storage.cpp, which src/observability_client.cpp repeats word for
-- word: a fixed array of shared pointers. `A` is what a non-null `CallbacksPtr` names. The mutex
-- makes each operation one step; what may go wrong in taking it is in `Dispatch`.
pub mod Claim
pub mod Occupied
use statsig_cpp_core.Prelude.{
  ℕ, suc, Bool, Option, none, some, List, [], ◌∷◌, replicate, set, get_elem?,
}
use statsig_cpp_core.Json.{ℤ, pos, negsuc}

abbrev pub max_slots : ℕ
max_slots = 32

module _ {A : Type 0} where
  -- A `CallbacksPtr`: `none` is the null pointer.
  -- `slots()` at the start of the program.
  abbrev pub empty_slots : List (Option A)
  empty_slots = replicate max_slots none

  abbrev pub or_null : Option (Option A) → Option A
  or_null none = none
  or_null (some c) = c

  -- `slots()[slot]`; every slot of the tables is below `max_slots`.
  unfoldable pub load_callbacks : List (Option A) → ℕ → Option A
  load_callbacks s slot = or_null (get_elem? s slot)

  -- The loop of `claim_slot` from index `i` on, over the slots that are left.
  unfoldable pub claim_loop : ℕ → List (Option A) → Option A → ℤ × List (Option A)
  claim_loop i [] cbs = (negsuc 0, [])
  claim_loop i (none ∷ s) cbs = (pos i, cbs ∷ s)
  claim_loop i (some c ∷ s) cbs = let (r, s') = claim_loop (suc i) s cbs in (r, some c ∷ s')

  unfoldable pub claim_slot : List (Option A) → Option A → ℤ × List (Option A)
  unfolding claim_loop
  claim_slot s cbs = claim_loop 0 s cbs

  unfoldable pub release_slot : List (Option A) → ℤ → List (Option A)
  release_slot s (pos slot) = set s slot none
  release_slot s (negsuc n) = s
