-- ===== src/Storage/Live/Reachable.antt =====
-- What holds in every state that constructions and destructions reach.
use statsig_cpp_core.Prelude.{
  ℕ, ◌≤◌, ◌≡◌, ◌≢◌, ◌↔◌, refl, subst, Option, none, some, [], get_elem?, arith, length-replicate,
  get_elem?-lt, All, remove_at, All-at, All-map, Pairwise-others,
}
use statsig_cpp_core.Storage.Tables.{Functions, functions}
use statsig_cpp_core.Json.{pos}
use statsig_cpp_core.Slots.{max_slots, empty_slots, load_callbacks}
use statsig_cpp_core.Slots.Occupied.{
  occupied-le-length, occupied-empty, none_free-occupied, occupied-lt-length,
}
use statsig_cpp_core.Storage.{PersistentStorage, construct}
use statsig_cpp_core.Storage.Outcome.{no_slot, refused, granted, construct-Outcome, slots-destroy}
use statsig_cpp_core.Storage.Live.{
  Process, OwnsAt, Owns, ApartSlots, Apart, registered, Step, constructs, destroys, other, Reach,
  here, next, IsConsistent,
}
use statsig_cpp_core.Storage.Live.Steps.{
  unregistered-IsConsistent, granted-IsConsistent, destroyed-IsConsistent, ne_of_ApartSlots,
  ApartSlots-symm,
}

module _ {U : Type 0} where
  -- The start of the program: an empty pool, and no storage.
  abbrev pub IsStart : Process U → Type 0
  IsStart p = (p.world.slots ≡ empty_slots) × (p.live ≡ [])

  abbrev IsGood : Process U → Type 0
  IsGood p = IsConsistent p.world.slots p.live

  Step-IsGood : {p q : Process U} → Step p q → IsGood p → IsGood q
  Step-IsGood {p = p} (constructs create c) v = elim (construct-Outcome create c p.world) [
    | no_slot full e ↦ rw e (unregistered-IsConsistent p.world.slots p.live v c)
    | refused k free z e ↦ rw e (unregistered-IsConsistent p.world.slots p.live v c)
    | granted k free lowest n e ↦ rw e (
        granted-IsConsistent p.world.slots p.live v _ k refl n free
          (get_elem?-lt p.world.slots k none free))
  ]
  Step-IsGood {p = p} (destroys i s e) v =
      rw (slots-destroy s p.world) (destroyed-IsConsistent p.world.slots p.live v i s e)
  Step-IsGood {p = p} (other w e) v = rw e v

  Reach-IsGood : {p q : Process U} → IsGood p → Reach p q → IsGood q
  Reach-IsGood v here = v
  Reach-IsGood v (next r st) = Step-IsGood st (Reach-IsGood v r)

  start-IsGood : (p : Process U) → IsStart p → IsGood p
  start-IsGood p (slots, live) =
      rw (slots, live)
        (record {
          size = length-replicate {A = Option ℕ} max_slots none;
          owns = tt;
          apart = tt;
          used = occupied-empty ℕ max_slots;
        })

  -- In every state that constructions and destructions of storages, in any order and with any
  -- answers of the native side, reach from the start: the pool has 32 slots; each living storage
  -- with a slot has its own callbacks there and a ref other than 0, and each without has the ref
  -- 0; no two have one slot; and the slots in use are as many as the storages that have one.
  pub reachable-IsConsistent :
      (p q : Process U) → IsStart p → Reach p q → IsConsistent q.world.slots q.live
  reachable-IsConsistent p q s r = Reach-IsGood (start-IsGood p s) r

  -- In every reachable state at most 32 living storages have a slot.
  pub registered-le-max_slots :
      (p q : Process U) → IsStart p → Reach p q → registered q.live ≤ max_slots
  registered-le-max_slots p q s r =
      let v : IsGood q = reachable-IsConsistent p q s r in
      omega (arith, v.used, v.size, occupied-le-length q.world.slots)

  -- In every reachable state, if the native side grants refs other than 0, a new storage gets the
  -- ref 0 exactly if 32 living storages have a slot.
  pub construct_exhausted :
      (p q : Process U) (create : Functions → ℕ) (c : ℕ)
      → IsStart p
      → Reach p q
      → ((fs : Functions) → create fs ≢ 0)
      → ((construct create c q.world).0.ref ≡ 0) ↔ (registered q.live ≡ max_slots)
  construct_exhausted p q create c s r nonzero =
      let v : IsGood q = reachable-IsConsistent p q s r in
      elim (construct-Outcome create c q.world) [
        | no_slot full e ↦ (
          λ _. omega (arith, v.used, v.size, none_free-occupied q.world.slots full),
          λ _. rw e refl,
        )
        | refused k free z e ↦ absurd (nonzero (functions k) z)
        | granted k free lowest n e ↦ (
          λ h. absurd (n (rw e at h)),
          λ h. absurd (omega (arith, v.used, v.size, occupied-lt-length q.world.slots k free)),
        )
      ]

  -- In every reachable state the functions of a living storage's slot find the callbacks of that
  -- storage, and no other living storage has that slot.
  pub dispatch_own :
      (p q : Process U) (i k : ℕ) (t : PersistentStorage)
      → IsStart p
      → Reach p q
      → get_elem? q.live i ≡ some t
      → t.slot ≡ pos k
      → (load_callbacks q.world.slots k ≡ some t.callbacks)
        × All (λ u. u.slot ≢ pos k) (remove_at i q.live)
  unfolding load_callbacks
  dispatch_own p q i k t s r e at =
      let v : IsGood q = reachable-IsConsistent p q s r in
      let own : OwnsAt q.world.slots t (pos k) =
        subst (OwnsAt q.world.slots t) at (All-at (Owns q.world.slots) q.live i t e v.owns) in
      (
        rw (own.0, load_callbacks) refl,
        All-map (Apart t) (λ u. u.slot ≢ pos k)
            (λ u h same.
              ne_of_ApartSlots k u.slot (subst (λ z. ApartSlots z u.slot) at h) k same refl)
            (remove_at i q.live)
            (Pairwise-others Apart (λ a b. ApartSlots-symm a.slot b.slot) q.live i t e v.apart),
      )
