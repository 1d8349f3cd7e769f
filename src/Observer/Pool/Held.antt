-- ===== src/Observer/Pool/Held.antt =====
-- The helpers of src/observability_client.cpp where the lock and the copy do not fail, and how often
-- they free.
use statsig_cpp_core.Prelude.{ℕ, String, ◌≡◌, sym, subst, ap, ◌∙◌, Option, none, some, ok}
use statsig_cpp_core.Slots
use statsig_cpp_core.Host.{World, Faults, emit, freed}
use statsig_cpp_core.Host.Held
use statsig_cpp_core.Host.Frees
use statsig_cpp_core.Host.Frees.{FreesOnce}
use statsig_cpp_core.Observer.Pool.{load_callbacks, free_args, consume_args}
use statsig_cpp_core.Observer.Pool.Same.{load_callbacks-eq, free_args-eq, consume_args-eq}

module _ {U : Type 0} (faults : Faults) where
  pub callbacks_loaded :
      (slot : ℕ) (w : World U)
      → faults.lock ≡ none
      → load_callbacks faults slot w ≡ (ok (Slots.load_callbacks w.slots slot), w)
  callbacks_loaded slot w lock =
      ap (λ m. m w) (load_callbacks-eq faults slot) ∙ Held.callbacks_loaded faults slot w lock

  pub callbacks_held :
      (slot c : ℕ) (w : World U)
      → faults.lock ≡ none
      → Slots.load_callbacks w.slots slot ≡ some c
      → load_callbacks faults slot w ≡ (ok (some c), w)
  callbacks_held slot c w lock held = callbacks_loaded slot w lock ∙ ap (λ o. (ok o, w)) held

  pub args_consumed :
      (memory : ℕ → ℕ → String) (p n : ℕ) (w : World U)
      → faults.alloc ≡ none
      → consume_args faults memory (some p) n w ≡ (ok (memory p n), emit (freed p) w)
  args_consumed memory p n w alloc =
      ap (λ m. m w) (consume_args-eq faults memory (some p) n)
      ∙ Held.args_consumed faults memory p n w alloc

  pub load_callbacks_returns :
      (slot : ℕ)
      → faults.lock ≡ none
      → (w : World U) → (a : Option ℕ) × (load_callbacks faults slot w ≡ (ok a, w))
  load_callbacks_returns slot lock w =
      (Slots.load_callbacks w.slots slot, callbacks_loaded slot w lock)

  pub FreesOnce-consume_args :
      (p : ℕ) (memory : ℕ → ℕ → String) (n : ℕ)
      → faults.alloc ≡ none
      → FreesOnce {U = U} p (consume_args faults memory (some p) n)
  FreesOnce-consume_args p memory n alloc =
      subst (FreesOnce p) (sym (consume_args-eq faults memory (some p) n))
        (Frees.FreesOnce-consume_args p faults memory n alloc)

pub FreesOnce-free_args : {U : Type 0} (p : ℕ) → FreesOnce {U = U} p (free_args (some p))
FreesOnce-free_args p =
    subst (FreesOnce p) (sym (free_args-eq (some p))) (Frees.FreesOnce-free_args p)
