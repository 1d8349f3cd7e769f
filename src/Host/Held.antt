-- ===== src/Host/Held.antt =====
-- `load_callbacks` and `consume_args` where the lock and the copy do not fail.
use statsig_cpp_core.Prelude.{ℕ, String, ◌≡◌, refl, ap, ◌∙◌, none, some, ok}
use statsig_cpp_core.Slots
use statsig_cpp_core.Host.{World, Faults, emit, freed, load_callbacks, free_args, consume_args}

module _ {U : Type 0} (faults : Faults) where
  pub callbacks_loaded :
      (slot : ℕ) (w : World U)
      → faults.lock ≡ none
      → load_callbacks faults slot w ≡ (ok (Slots.load_callbacks w.slots slot), w)
  unfolding load_callbacks
  callbacks_loaded slot w lock = rw lock refl

  pub callbacks_held :
      (slot c : ℕ) (w : World U)
      → faults.lock ≡ none
      → Slots.load_callbacks w.slots slot ≡ some c
      → load_callbacks faults slot w ≡ (ok (some c), w)
  callbacks_held slot c w lock held = callbacks_loaded slot w lock ∙ ap (λ o. (ok o, w)) held

  pub args_consumed :
      (memory : ℕ → ℕ → String) (p n : ℕ) (w : World U)
      → faults.alloc ≡ none
      → consume_args faults memory (some p) n w ≡ (ok (memory p n), emit (freed p) w)
  unfolding consume_args free_args
  args_consumed memory p n w alloc = rw alloc refl
