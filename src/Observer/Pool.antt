-- ===== src/Observer/Pool.antt =====
-- src/observability_client.cpp: its own slot pool, and its own helpers for the arguments that the
-- FFI hands over.
pub mod Same
pub mod Held
use statsig_cpp_core.Prelude.{
  ℕ, suc, String, Option, none, some, List, [], ◌∷◌, replicate, set, get_elem?, ok,
}
use statsig_cpp_core.Prelude.Effects.{Exec, ◌>>◌, pure, modify}
use statsig_cpp_core.Json.{ℤ, pos, negsuc}
use statsig_cpp_core.Slots.{or_null}
use statsig_cpp_core.Host.{World, Faults, freed, may_throw, emit}

abbrev pub max_slots : ℕ
max_slots = 32

abbrev pub empty_slots : List (Option ℕ)
empty_slots = replicate max_slots none

-- The loop of `claim_slot` from index `i` on, over the slots that are left.
unfoldable pub claim_loop : ℕ → List (Option ℕ) → Option ℕ → ℤ × List (Option ℕ)
claim_loop i [] cbs = (negsuc 0, [])
claim_loop i (none ∷ s) cbs = (pos i, cbs ∷ s)
claim_loop i (some c ∷ s) cbs = let (r, s') = claim_loop (suc i) s cbs in (r, some c ∷ s')

unfoldable pub claim_slot : List (Option ℕ) → Option ℕ → ℤ × List (Option ℕ)
unfolding claim_loop
claim_slot s cbs = claim_loop 0 s cbs

unfoldable pub release_slot : List (Option ℕ) → ℤ → List (Option ℕ)
release_slot s (pos slot) = set s slot none
release_slot s (negsuc n) = s

module _ {U : Type 0} where
  -- `slots()[slot]` under the mutex; every slot of the tables is below `max_slots`.
  unfoldable pub load_callbacks : Faults → ℕ → Exec (World U) (Option ℕ)
  load_callbacks faults slot = do
    may_throw faults.lock
    λ w. (ok (or_null (get_elem? w.slots slot)), w)

  unfoldable pub free_args : Option ℕ → Exec (World U) (Unit {0})
  free_args none = pure tt
  free_args (some args_ptr) = modify (emit (freed args_ptr))

  -- `memory p n` is the text of the `n` bytes at `p`.
  unfoldable pub consume_args : Faults → (ℕ → ℕ → String) → Option ℕ → ℕ → Exec (World U) String
  consume_args faults memory none args_length = pure ""
  consume_args faults memory (some args_ptr) args_length = do
    may_throw faults.alloc
    free_args (some args_ptr)
    pure (memory args_ptr args_length)
