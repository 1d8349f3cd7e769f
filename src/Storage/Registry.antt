-- ===== src/Storage/Registry.antt =====
-- src/persistent_storage.cpp: the constructor and the destructor of `PersistentStorage` in the
-- parts between which other threads can act, with the registry of the native side: which
-- functions it calls for a ref. Each access to the pool is under the mutex, and each call of the
-- native library is one step.
pub mod Consistent
pub mod Steps
pub mod Reached
pub mod Alone
pub mod Calls
pub mod Bounds
pub mod Pending
use statsig_cpp_core.Prelude.{ℕ, ◌≡◌, ◌≢◌, Option, none, some, ◌==◌, if◌then◌else◌}
use statsig_cpp_core.Json.{ℤ, pos, negsuc}
use statsig_cpp_core.Slots.{claim_slot, release_slot}
use statsig_cpp_core.Host.{World, created, released, exhausted, not_registered, emit}
use statsig_cpp_core.Storage.Tables.{Functions, functions}
use statsig_cpp_core.Storage.{PersistentStorage}

-- The members as the constructor initializes them, and the slot of the claim.
abbrev pub new_storage : ℕ → ℤ → PersistentStorage
new_storage c z = record { callbacks = c; ref = 0; slot = z }

-- How far a thread is with its storage: in the constructor, after the claim, or after a refusal of
-- the native side; outside of the constructor and the destructor; in the destructor, after the
-- release of the ref.
pub data Phase : Type 0 where
  claimed refused alive gone : Phase

pub record Object : Type 0 where
  pub storage : PersistentStorage
  pub phase : Phase

-- `objects` is by thread; `entries` is the registry of the native side, the functions for each ref.
pub record Registry (U : Type 0) : Type 0 where
  pub world : World U
  pub objects : ℕ → Option Object
  pub entries : ℕ → Option Functions

abbrev pub update : {A : Type 0} → ℕ → A → (ℕ → A) → ℕ → A
update i a f j = if j == i then a else f j

module _ {U : Type 0} where
  -- `slot_ = claim_slot(callbacks_)`
  unfoldable pub claim : ℕ → ℕ → Registry U → Registry U
  claim i c r =
      let (slot, slots) = claim_slot r.world.slots (some c) in
      record r {
        world = record r.world { slots = slots };
        objects =
            update i (some (record { storage = new_storage c slot; phase = Phase.claimed }))
              r.objects;
      }

  -- The constructor up to the answer `ref` of the native side, by the sign of `slot_`: the native side
  -- keeps the functions under the ref, unless it refuses.
  unfoldable pub enroll : ℕ → PersistentStorage → ℕ → ℤ → Registry U → Registry U
  enroll i s ref (negsuc n) r = record r {
    world = emit exhausted r.world;
    objects = update i (some (record { storage = s; phase = Phase.alive })) r.objects;
  }
  enroll i s ref (pos k) r =
      let w : World U = emit (created k) r.world in
      if ref == 0
      then record r {
        world = emit not_registered w;
        objects = update i (some (record { storage = s; phase = Phase.refused })) r.objects;
      }
      else record r {
        world = w;
        objects =
            update i (some (record { storage = record s { ref = ref }; phase = Phase.alive }))
              r.objects;
        entries = update ref (some (functions k)) r.entries;
      }

  -- `release_slot(slot_); slot_ = -1;` at the end of the constructor.
  unfoldable pub withdraw : ℕ → PersistentStorage → Registry U → Registry U
  withdraw i s r = record r {
    world = record r.world { slots = release_slot r.world.slots s.slot };
    objects =
        update i (some (record { storage = record s { slot = negsuc 0 }; phase = Phase.alive }))
          r.objects;
  }

  -- `if (ref_ != 0) { persistent_storage_release(ref_); ref_ = 0; }`
  unfoldable pub unregister : ℕ → PersistentStorage → Registry U → Registry U
  unregister i s r =
      let left : Registry U = record r {
        objects =
            update i (some (record { storage = record s { ref = 0 }; phase = Phase.gone }))
              r.objects;
      } in
      if s.ref == 0 then left else record left {
        world = emit (released s.ref) left.world;
        entries = update s.ref none left.entries;
      }

  -- `release_slot(slot_)` at the end of the destructor, and the end of the storage.
  unfoldable pub clear : ℕ → PersistentStorage → Registry U → Registry U
  clear i s r = record r {
    world = record r.world { slots = release_slot r.world.slots s.slot };
    objects = update i none r.objects;
  }

  pub data Step (r : Registry U) : Registry U → Type 0 where
    claims : (i c : ℕ) → r.objects i ≡ none → Step r (claim i c r)
    -- the native side gives no ref that it still has
    enrolls :
        (i ref : ℕ) (s : PersistentStorage)
        → r.objects i ≡ some (record { storage = s; phase = Phase.claimed })
        → r.entries ref ≡ none
        → Step r (enroll i s ref s.slot r)
    withdraws :
        (i : ℕ) (s : PersistentStorage)
        → r.objects i ≡ some (record { storage = s; phase = Phase.refused })
        → Step r (withdraw i s r)
    unregisters :
        (i : ℕ) (s : PersistentStorage)
        → r.objects i ≡ some (record { storage = s; phase = Phase.alive })
        → Step r (unregister i s r)
    clears :
        (i : ℕ) (s : PersistentStorage)
        → r.objects i ≡ some (record { storage = s; phase = Phase.gone })
        → Step r (clear i s r)
    -- anything else that leaves the pool alone, the calls of callbacks included
    other : (w : World U) → w.slots ≡ r.world.slots → Step r (record r { world = w })

  pub data Reach (r : Registry U) : Registry U → Type 0 where
    here : Reach r r
    next : {q s : Registry U} → Reach r q → Step q s → Reach r s
