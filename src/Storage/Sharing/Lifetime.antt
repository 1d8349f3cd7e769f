-- ===== src/Storage/Sharing/Lifetime.antt =====
-- The callbacks of a destroyed storage are freed, when the dispatches that use them end.
use statsig_cpp_core.Prelude.{
  ℕ, zero, suc, ◌+◌, ◌≤◌, ◌<◌, ◌≡◌, refl, ap, Option, none, some, List, [], ◌∷◌, map, get_elem?,
  remove_at, count, one, arith, All-at, some-injective,
}
use statsig_cpp_core.Storage.Tables.{Functions}
use statsig_cpp_core.Json.{ℤ, pos, negsuc}
use statsig_cpp_core.Slots
use statsig_cpp_core.Slots.{release_slot}
use statsig_cpp_core.Storage
use statsig_cpp_core.Storage.{PersistentStorage}
use statsig_cpp_core.Storage.Outcome.{no_slot, refused, granted, construct-Outcome, slots-destroy}
use statsig_cpp_core.Storage.Live
use statsig_cpp_core.Storage.Live.{Process, Owns, OwnsAt}
use statsig_cpp_core.Storage.Live.Reachable.{reachable-IsConsistent}
use statsig_cpp_core.Storage.Sharing.{Pool, Reach}
use statsig_cpp_core.Storage.Sharing.Counts.{in_slots, in_slots-set, in_storages}
use statsig_cpp_core.Storage.Sharing.Safety.{start, in_slots-replicate, freed_after_drain}
use statsig_cpp_core.Storage.Sharing.Refines.{holder, live_start, sharing_refines_live}

abbrev slot_one : ℕ → ℕ → ℤ → ℕ
slot_one c d (pos k) = one c d
slot_one c d (negsuc n) = 0

-- How many storages have a slot and the callbacks `c`.
abbrev with_slot : ℕ → List PersistentStorage → ℕ
with_slot c [] = 0
with_slot c (t ∷ live) = slot_one c t.callbacks t.slot + with_slot c live

module _ (c : ℕ) where
  slot_one-le : (d : ℕ) (z : ℤ) → slot_one c d z ≤ one c d
  slot_one-le d (pos k) = omega arith
  slot_one-le d (negsuc n) = omega arith

  with_slot-le :
      (live : List PersistentStorage) → with_slot c live ≤ in_storages c (map holder live)
  with_slot-le [] = omega arith
  with_slot-le (t ∷ live) = omega (arith, slot_one-le t.callbacks t.slot, with_slot-le live)

  with_slot-remove_at :
      (live : List PersistentStorage) (i : ℕ) (t : PersistentStorage)
      → get_elem? live i ≡ some t
      → with_slot c (remove_at i live) + slot_one c t.callbacks t.slot ≡ with_slot c live
  with_slot-remove_at [] i t e = cc
  with_slot-remove_at (u ∷ live) zero t e =
      omega (
        arith,
        ap (λ (v : PersistentStorage). slot_one c v.callbacks v.slot) (some-injective u t e),
      )
  with_slot-remove_at (u ∷ live) (suc i) t e = omega (arith, with_slot-remove_at live i t e)

  -- What leaves the slots when a storage that owns its slot lets it go.
  in_slots-release_slot :
      (slots : List (Option ℕ)) (d ref : ℕ) (z : ℤ)
      → OwnsAt slots (record { callbacks = d; ref = ref; slot = z }) z
      → in_slots c (release_slot slots z) + slot_one c d z ≡ in_slots c slots
  unfolding release_slot
  in_slots-release_slot slots d ref (pos k) h =
      omega (arith, in_slots-set c slots k (some d) none h.0)
  in_slots-release_slot slots d ref (negsuc n) h = omega arith

  construct-Held :
      (create : Functions → ℕ) (d : ℕ) (q : Process (Unit {0}))
      → in_slots c q.world.slots ≡ with_slot c q.live
      → in_slots c (Storage.construct create d q.world).1.slots
        ≡ with_slot c ((Storage.construct create d q.world).0 ∷ q.live)
  construct-Held create d q h = elim (construct-Outcome create d q.world) [
    | no_slot full e ↦ rw e (omega (arith, h))
    | refused k free z e ↦ rw e (omega (arith, h))
    | granted k free lowest n e ↦
        rw e (omega (arith, h, in_slots-set c q.world.slots k none (some d) free))
  ]

  Reach-Held :
      (q : Process (Unit {0}))
      → Live.Reach live_start q
      → in_slots c q.world.slots ≡ with_slot c q.live
  Reach-Held q Live.Reach.here = in_slots-replicate c Slots.max_slots
  Reach-Held q (Live.Reach.next {q = p} way (Live.Step.constructs create d)) =
      construct-Held create d p (Reach-Held p way)
  Reach-Held q (Live.Reach.next {q = p} way (Live.Step.destroys i t e)) =
      let v = reachable-IsConsistent live_start p (refl, refl) way in
      let own : Owns p.world.slots t = All-at (Owns p.world.slots) p.live i t e v.owns in
      rw (slots-destroy t p.world) (
        omega (
          arith,
          in_slots-release_slot p.world.slots t.callbacks t.ref t.slot own,
          with_slot-remove_at p.live i t e,
          Reach-Held p way,
        ))
  Reach-Held q (Live.Reach.next {q = p} way (Live.Step.other w e)) = rw e (Reach-Held p way)

pub in_slots-le-in_storages :
    (q : Pool) (c : ℕ) → Reach start q → in_slots c q.slots ≤ in_storages c q.storages
in_slots-le-in_storages q c way =
    let (p, on, sim) = sharing_refines_live q way in
    omega (
      arith,
      ap (in_slots c) sim.slots,
      ap (in_storages c) sim.storages,
      Reach-Held c p on,
      with_slot-le c p.live,
    )

-- From every state that interleavings of constructions, destructions and dispatches reach,
-- callbacks that no living storage has any more can get freed: the dispatches that run can end one
-- after the other, and so can the members of the storages whose destructor has run its body, and
-- when they have, the callbacks have been freed exactly once.
pub freed_in_the_end :
    (q : Pool) (c : ℕ)
    → Reach start q
    → c < q.next
    → in_storages c q.storages ≡ 0
    → (r : Pool) × Reach q r
      × (r.flights ≡ [])
      × (r.ending ≡ [])
      × (r.storages ≡ q.storages)
      × (count c r.freed ≡ 1)
freed_in_the_end q c way lt none_left =
    freed_after_drain q c way lt none_left
      (omega (arith, none_left, in_slots-le-in_storages q c way))
