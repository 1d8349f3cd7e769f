-- ===== src/Storage/Outcome.antt =====
-- What one construction or destruction of a `PersistentStorage` does to the pool.
use statsig_cpp_core.Prelude.{
  ℕ, ◌<◌, ◌≡◌, ◌≢◌, refl, inl, inr, some, ◌∷◌, set, arith, Bool-cases, ◌==◌, if◌then◌else◌,
}
use statsig_cpp_core.Storage.Tables.{Functions, functions}
use statsig_cpp_core.Json.{pos, negsuc}
use statsig_cpp_core.Slots.{release_slot}
use statsig_cpp_core.Slots.Claim.{IsFree, claim_slot_lowest}
use statsig_cpp_core.Slots.Occupied.{set_back}
use statsig_cpp_core.Host.{World, created, released, exhausted, not_registered, emit}
use statsig_cpp_core.Storage.{PersistentStorage, construct, destroy}

-- A storage that is not registered.
abbrev pub unregistered : ℕ → PersistentStorage
unregistered c = record { callbacks = c; ref = 0; slot = negsuc 0 }

module _ {U : Type 0} (create : Functions → ℕ) (c : ℕ) (w : World U) where
  -- The three outcomes: the pool is full; the native side refuses and the pool is as before; the
  -- storage is registered under the lowest free slot.
  pub data Outcome (r : PersistentStorage × World U) : Type 0 where
    no_slot : ((j : ℕ) → ¬ IsFree w.slots j) → r ≡ (unregistered c, emit exhausted w) → Outcome r
    refused :
        (k : ℕ)
        → IsFree w.slots k
        → create (functions k) ≡ 0
        → r ≡ (unregistered c, emit not_registered (emit (created k) w))
        → Outcome r
    granted :
        (k : ℕ)
        → IsFree w.slots k
        → ((j : ℕ) → j < k → ¬ IsFree w.slots j)
        → create (functions k) ≢ 0
        → r ≡ (
          record { callbacks = c; ref = create (functions k); slot = pos k },
          emit (created k) (record w { slots = set w.slots k (some c) }),
        )
        → Outcome r

  -- A construction has one of three outcomes: the pool is full, the storage has no ref and the
  -- pool is as before; the native side answers 0, the storage has no ref and the pool is as
  -- before; or the storage is registered under the lowest free slot with the ref of the native
  -- side.
  pub construct-Outcome : Outcome (construct create c w)
  unfolding construct release_slot
  construct-Outcome = elim (claim_slot_lowest w.slots (some c)) [
    | inl (full, e) ↦ no_slot full (rw (e, construct) refl)
    | inr (k, free, lowest, e) ↦ elim (Bool-cases (create (functions k) == 0)) [
      | inl zero_ref ↦
          refused k free (ground arith)
            (rw (e, zero_ref) (ground (arith, set_back w.slots k (some c) free)))
      | inr ref ↦ granted k free lowest (ground arith) (rw (e, ref) refl)
    ]
  ]

  -- Destroying a storage right after its construction gives the pool back as it was, whichever
  -- outcome the construction had, and releases its ref if that is not 0.
  pub destroy-construct :
      let r = construct create c w in
      ((destroy r.0 r.1).slots ≡ w.slots)
      × ((destroy r.0 r.1).events
          ≡ (if r.0.ref == 0 then r.1.events else released r.0.ref ∷ r.1.events))
  unfolding destroy release_slot
  destroy-construct = elim construct-Outcome [
    | no_slot full e ↦ rw e (refl, refl)
    | refused k free z e ↦ rw e (refl, refl)
    | granted k free lowest n e ↦
        rw e (ground (arith, set_back w.slots k (some c) free), ground arith)
  ]

pub slots-destroy :
    {U : Type 0} (s : PersistentStorage) (w : World U)
    → (destroy s w).slots ≡ release_slot w.slots s.slot
unfolding destroy
slots-destroy s w = ground arith
