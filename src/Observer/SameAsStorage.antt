-- ===== src/Observer/SameAsStorage.antt =====
-- An `ObservabilityClient` lives and dies as a `PersistentStorage` does, so that what is proved of
-- the pool of storages holds of the pool of clients.
use statsig_cpp_core.Prelude.{ℕ, ◌≡◌, refl, some, inl, inr, Bool-cases, ◌==◌}
use statsig_cpp_core.Observer.Tables.{Functions, functions}
use statsig_cpp_core.Storage.Tables
use statsig_cpp_core.Storage.Tables.{index}
use statsig_cpp_core.Json.{ℤ, pos, negsuc}
use statsig_cpp_core.Slots
use statsig_cpp_core.Observer.Pool.{release_slot}
use statsig_cpp_core.Observer.Pool.Same.{claim_slot-eq}
use statsig_cpp_core.Host.{World}
use statsig_cpp_core.Storage
use statsig_cpp_core.Storage.{PersistentStorage}
use statsig_cpp_core.Observer.{ObservabilityClient, register, construct, destroy}

abbrev pub as_storage : ObservabilityClient → PersistentStorage
as_storage c = record { callbacks = c.callbacks; ref = c.ref; slot = c.slot }

-- The native side's answers, by the slot of the functions.
abbrev pub as_create : (Functions → ℕ) → Tables.Functions → ℕ
as_create create fs = create (functions (index fs.load))

register-eq :
    {U : Type 0} (create : Functions → ℕ) (c : ℕ) (z : ℤ) (w : World U)
    → (as_storage (register create c z w).0 ≡ (Storage.register (as_create create) c z w).0)
      × ((register create c z w).1 ≡ (Storage.register (as_create create) c z w).1)
unfolding register Storage.construct release_slot Slots.release_slot
register-eq create c (negsuc n) w = (refl, refl)
register-eq create c (pos s) w = elim (Bool-cases (create (functions s) == 0)) [
  | inl e ↦ (rw e refl, rw e refl)
  | inr e ↦ (rw e refl, rw e refl)
]

-- For every pool and every answer of the native side for the functions of a slot, the construction and the destruction of an
-- observability client change the state as those of a persistent storage do, and the client gets
-- the ref and the slot that the storage gets.
pub client-eq-storage :
    {U : Type 0} (create : Functions → ℕ) (c : ℕ) (w : World U)
    → (as_storage (construct create c w).0 ≡ (Storage.construct (as_create create) c w).0)
      × ((construct create c w).1 ≡ (Storage.construct (as_create create) c w).1)
      × ((o : ObservabilityClient) → destroy o w ≡ Storage.destroy (as_storage o) w)
unfolding construct destroy Storage.construct Storage.destroy release_slot Slots.release_slot
client-eq-storage create c w =
    let (slot, slots) = Slots.claim_slot w.slots (some c) in
    let (same, state) = register-eq create c slot (record w { slots = slots }) in
    rw (claim_slot-eq w.slots (some c)) (same, state, λ o. refl)
