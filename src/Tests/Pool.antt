-- ===== src/Tests/Pool.antt =====
-- The slot pools, the storages and the clients on concrete states.
use statsig_cpp_core.Prelude.{ℕ, suc, ◌≡◌, ◌≢◌, ◌↔◌, refl, [], ◌∷◌, arith}
use statsig_cpp_core.Storage.Tables.{Functions, index}
use statsig_cpp_core.Json.{pos}
use statsig_cpp_core.Slots.{max_slots, empty_slots, claim_slot, claim_loop}
use statsig_cpp_core.Host.{World}
use statsig_cpp_core.Storage.{PersistentStorage, register, construct}
use statsig_cpp_core.Storage.Live.{Process, IsConsistent, registered, Reach, next, here, constructs}
use statsig_cpp_core.Storage.Live.Reachable.{reachable-IsConsistent, construct_exhausted}

-- Refs count from 1.
abbrev pub create : Functions → ℕ
create fs = suc (index fs.load)

abbrev pub empty_world : World (Unit {0})
empty_world = record { slots = empty_slots; events = []; buffer = ""; user = tt }

abbrev pub start : Process (Unit {0})
start = record { world = empty_world; live = [] }

abbrev pub first_storage : PersistentStorage
first_storage = (construct create 7 empty_world).0

abbrev pub one_storage : Process (Unit {0})
one_storage = record { world = (construct create 7 empty_world).1; live = first_storage ∷ [] }

abbrev pub one_reached : Reach start one_storage
one_reached = next here (constructs create 7)

reachable-IsConsistent_example : IsConsistent one_storage.world.slots one_storage.live
reachable-IsConsistent_example = reachable-IsConsistent start one_storage (refl, refl) one_reached

pub create_nonzero : (fs : Functions) → create fs ≢ 0
create_nonzero fs h = absurd (omega arith)

construct_exhausted_example :
    ((construct create 8 one_storage.world).0.ref ≡ 0) ↔ (registered one_storage.live ≡ max_slots)
construct_exhausted_example =
    construct_exhausted start one_storage create 8 (refl, refl) one_reached create_nonzero

pub first_slot : first_storage.slot ≡ pos 0
unfolding construct claim_slot claim_loop register
first_slot = refl
