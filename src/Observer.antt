-- ===== src/Observer.antt =====
-- src/observability_client.cpp: the constructor and the destructor of `ObservabilityClient`.
-- `create` is the ref that `observability_client_create` returns for the functions that it is given.
pub mod Tables
pub mod Pool
pub mod Tags
pub mod Dispatch
pub mod SameAsStorage
pub mod Live
use statsig_cpp_core.Prelude.{ℕ, String, some, ◌∷◌, ◌==◌, if◌then◌else◌}
use statsig_cpp_core.Observer.Tables.{Functions, functions}
use statsig_cpp_core.Json.{ℤ, pos, negsuc}
use statsig_cpp_core.Observer.Pool.{claim_slot, release_slot}
use statsig_cpp_core.Host.{World, created, released, exhausted, not_registered, emit}

pub record ObservabilityClient : Type 0 where
  pub callbacks : ℕ
  pub ref : ℕ
  pub slot : ℤ

module _ {U : Type 0} where
  -- The constructor after `claim_slot`, by the sign of `slot_`.
  register : (Functions → ℕ) → ℕ → ℤ → World U → ObservabilityClient × World U
  register create callbacks (negsuc n) w =
      (record { callbacks = callbacks; ref = 0; slot = negsuc n }, emit exhausted w)
  register create callbacks (pos s) w =
      let w' : World U = emit (created s) w in
      if create (functions s) == 0
      then (
        record { callbacks = callbacks; ref = 0; slot = negsuc 0 },
        (let w'' : World U = emit not_registered w' in
            record w'' { slots = release_slot w''.slots (pos s) }),
      )
      else (record { callbacks = callbacks; ref = create (functions s); slot = pos s }, w')

  unfoldable pub construct : (Functions → ℕ) → ℕ → World U → ObservabilityClient × World U
  unfolding register
  construct create callbacks w =
      let (slot, slots) = claim_slot w.slots (some callbacks) in
      register create callbacks slot (record w { slots = slots })

  unfoldable pub destroy : ObservabilityClient → World U → World U
  destroy c w =
      let w' : World U = if c.ref == 0 then w else emit (released c.ref) w in
      record w' { slots = release_slot w'.slots c.slot }

-- `INTERNAL_test`; `native` is `__internal__test_observability_client`.
pub internal_test :
    {S D : Type 0}
    → (ℕ → String → String → D → String → S → S)
    → ObservabilityClient
    → String
    → String
    → D
    → String
    → S
    → S
internal_test native o action metric_name value tags = native o.ref action metric_name value tags
