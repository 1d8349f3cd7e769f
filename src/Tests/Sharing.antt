-- ===== src/Tests/Sharing.antt =====
-- Shared pointers, and the registered functions, on concrete states.
use statsig_cpp_core.Prelude.{
  ◌≤◌, ◌<◌, ◌≡◌, refl, some, [], get_elem?, count, ◌==◌, if◌then◌else◌, arith,
}
use statsig_cpp_core.Tests.Pool.{create}
use statsig_cpp_core.Json.{pos}
use statsig_cpp_core.Slots.{claim_slot, claim_loop, load_callbacks}
use statsig_cpp_core.Storage.Live
use statsig_cpp_core.Storage.Live.{IsConsistent}
use statsig_cpp_core.Storage.Sharing.{
  Holder, Pool, Reach, here, next, constructs, destroys, ends, enters, construct, destroy,
  end_members, enter, enter_with, settle, allocate, retain, drop, drop_entry, release, drop_locked,
}
use statsig_cpp_core.Storage.Sharing.Counts.{in_storages, uses}
use statsig_cpp_core.Storage.Sharing.Safety.{start, flights_alive, freed_iff_unused}
use statsig_cpp_core.Storage.Sharing.Refines.{live_start, Simulates, sharing_refines_live}
use statsig_cpp_core.Storage.Sharing.Locked.{locked_frees_none}
use statsig_cpp_core.Storage.Sharing.Lifetime.{freed_in_the_end}

-- A storage whose load runs, and the same after the storage has ended.
abbrev loading : Pool
loading = enter 0 (construct create start)

abbrev own : Holder
own = record { callbacks = 0; slot = pos 0 }

abbrev unloaded : Pool
unloaded = end_members 0 0 (destroy 0 own loading)

loading_reached : Reach start loading
loading_reached = next (next here (constructs create)) (enters 0)

own_lives : get_elem? loading.storages 0 ≡ some own
unfolding construct allocate retain settle claim_slot claim_loop drop drop_entry release enter
    enter_with load_callbacks
own_lives = refl

unloaded_reached : Reach start unloaded
unfolding destroy release drop_entry drop_locked drop
unloaded_reached = next (next loading_reached (destroys 0 own own_lives)) (ends 0 0 refl)

-- The storage has ended and its load still runs.
unloaded_runs : get_elem? unloaded.flights 0 ≡ some 0
unfolding construct destroy end_members allocate retain settle claim_slot claim_loop drop drop_entry
    release enter enter_with load_callbacks
unloaded_runs = refl

unloaded_next : 0 < unloaded.next
unfolding construct destroy end_members allocate retain settle claim_slot claim_loop drop drop_entry
    release enter enter_with load_callbacks
unloaded_next = omega arith

flights_alive_example : (1 ≤ unloaded.counts 0) × (count 0 unloaded.freed ≡ 0)
flights_alive_example = flights_alive unloaded 0 0 unloaded_reached unloaded_runs

freed_iff_unused_example : count 0 unloaded.freed ≡ (if uses 0 unloaded == 0 then 1 else 0)
freed_iff_unused_example = freed_iff_unused unloaded 0 unloaded_reached unloaded_next

sharing_refines_live_example :
    (q : Live.Process (Unit {0})) × Live.Reach live_start q × Simulates unloaded q
sharing_refines_live_example = sharing_refines_live unloaded unloaded_reached

no_storage : in_storages 0 unloaded.storages ≡ 0
unfolding construct destroy end_members allocate retain settle claim_slot claim_loop drop drop_entry
    release enter enter_with load_callbacks
no_storage = refl

freed_in_the_end_example :
    (r : Pool) × Reach unloaded r
    × (r.flights ≡ [])
    × (r.ending ≡ [])
    × (r.storages ≡ unloaded.storages)
    × (count 0 r.freed ≡ 1)
freed_in_the_end_example = freed_in_the_end unloaded 0 unloaded_reached unloaded_next no_storage

locked_frees_none_example : unloaded.freed_locked ≡ []
locked_frees_none_example = locked_frees_none unloaded unloaded_reached
