-- ===== src/Storage.antt =====
-- src/persistent_storage.cpp: the constructor and the destructor of `PersistentStorage`. The FFI's
-- `persistent_storage_create` is an argument: the ref that it returns for the functions that it is
-- given.
pub mod Tables
pub mod Dispatch
pub mod Outcome
pub mod Live
pub mod Registry
pub mod Sharing
use statsig_cpp_core.Prelude.{ℕ, Option, some, ◌∷◌, ◌==◌, if◌then◌else◌}
use statsig_cpp_core.Storage.Tables.{Functions, functions}
use statsig_cpp_core.Json.{ℤ, pos, negsuc}
use statsig_cpp_core.Slots.{claim_slot, release_slot}
use statsig_cpp_core.Host.{World, Event, created, released, exhausted, not_registered, emit}

pub record PersistentStorage : Type 0 where
  pub callbacks : ℕ
  pub ref : ℕ
  pub slot : ℤ

module _ {U : Type 0} where
  -- The constructor after `claim_slot`, by the sign of `slot_`.
  unfoldable pub register : (Functions → ℕ) → ℕ → ℤ → World U → PersistentStorage × World U
  register create callbacks (negsuc n) w =
      (record { callbacks = callbacks; ref = 0; slot = negsuc n }, emit exhausted w)
  register create callbacks (pos s) w =
      let w' : World U = emit (created s) w in
      if create (functions s) == 0
      then (
        record { callbacks = callbacks; ref = 0; slot = negsuc 0 },
        (let w'' : World U = emit not_registered w' in
            record w'' { slots = release_slot w''.slots (pos s) }),
      )
      else (record { callbacks = callbacks; ref = create (functions s); slot = pos s }, w')

  -- `PersistentStorage(callbacks)`, its callbacks moved to the address `callbacks`.
  unfoldable pub construct : (Functions → ℕ) → ℕ → World U → PersistentStorage × World U
  unfolding register
  construct create callbacks w =
      let (slot, slots) = claim_slot w.slots (some callbacks) in
      register create callbacks slot (record w { slots = slots })

  unfoldable pub destroy : PersistentStorage → World U → World U
  destroy s w =
      let w' : World U = if s.ref == 0 then w else emit (released s.ref) w in
      record w' { slots = release_slot w'.slots s.slot }
