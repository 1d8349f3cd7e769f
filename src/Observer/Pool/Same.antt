-- ===== src/Observer/Pool/Same.antt =====
-- The pool and the helpers of src/observability_client.cpp do what those of
-- src/persistent_storage.cpp do.
use statsig_cpp_core.Prelude.{ℕ, suc, String, ◌≡◌, refl, ap, Option, none, some, List, [], ◌∷◌}
use statsig_cpp_core.Json.{ℤ, pos, negsuc}
use statsig_cpp_core.Slots
use statsig_cpp_core.Host
use statsig_cpp_core.Host.{World, Faults}
use statsig_cpp_core.Observer.Pool.{
  claim_loop, claim_slot, release_slot, load_callbacks, free_args, consume_args,
}

pub claim_loop-eq :
    (i : ℕ) (s : List (Option ℕ)) (cbs : Option ℕ) → claim_loop i s cbs ≡ Slots.claim_loop i s cbs
unfolding claim_loop Slots.claim_loop
claim_loop-eq i [] cbs = refl
claim_loop-eq i (none ∷ s) cbs = refl
claim_loop-eq i (some c ∷ s) cbs =
    ap (λ (r : ℤ × List (Option ℕ)). (r.0, some c ∷ r.1)) (claim_loop-eq (suc i) s cbs)

pub claim_slot-eq :
    (s : List (Option ℕ)) (cbs : Option ℕ) → claim_slot s cbs ≡ Slots.claim_slot s cbs
unfolding claim_slot Slots.claim_slot
claim_slot-eq s cbs = claim_loop-eq 0 s cbs

pub release_slot-eq : (s : List (Option ℕ)) (z : ℤ) → release_slot s z ≡ Slots.release_slot s z
unfolding release_slot Slots.release_slot
release_slot-eq s (pos k) = refl
release_slot-eq s (negsuc n) = refl

module _ {U : Type 0} where
  pub load_callbacks-eq :
      (faults : Faults) (slot : ℕ)
      → load_callbacks {U = U} faults slot ≡ Host.load_callbacks faults slot
  unfolding load_callbacks Host.load_callbacks Slots.load_callbacks
  load_callbacks-eq faults slot = refl

  pub free_args-eq : (p : Option ℕ) → free_args {U = U} p ≡ Host.free_args p
  unfolding free_args Host.free_args
  free_args-eq none = refl
  free_args-eq (some p) = refl

  pub consume_args-eq :
      (faults : Faults) (memory : ℕ → ℕ → String) (p : Option ℕ) (n : ℕ)
      → consume_args {U = U} faults memory p n ≡ Host.consume_args faults memory p n
  unfolding consume_args Host.consume_args free_args Host.free_args
  consume_args-eq faults memory none n = refl
  consume_args-eq faults memory (some p) n = refl
