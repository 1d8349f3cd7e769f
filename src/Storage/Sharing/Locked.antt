-- ===== src/Storage/Sharing/Locked.antt =====
-- What the constructor and `release_slot`, which hold the mutex, free: nothing. The destructor of
-- a callback, which may call back into the pool, never runs while the mutex is held.
use statsig_cpp_core.Prelude.{
  ℕ, ◌≤◌, ◌≡◌, refl, ap, sym, subst, ◌∙◌, inl, inr, Option, none, some, [], set, get_elem?,
  get_elem?-lt, get_elem?-set_self, one, arith, All-at, Bool-cases, ◌==◌,
}
use statsig_cpp_core.Storage.Tables.{Functions, functions}
use statsig_cpp_core.Json.{ℤ, pos, negsuc}
use statsig_cpp_core.Slots.{claim_slot}
use statsig_cpp_core.Slots.Claim.{claim_slot_lowest}
use statsig_cpp_core.Storage.Live.{Owns, OwnsAt}
use statsig_cpp_core.Storage.Live.Reachable.{reachable-IsConsistent}
use statsig_cpp_core.Storage.Sharing.{
  Holder, Pool, allocate, retain, drop, drop_locked, drop_entry, release, settle, construct,
  destroy, enter_with, enter, leave, constructs, destroys, enters, leaves, Reach, here, next,
  end_members, ends,
}
use statsig_cpp_core.Storage.Sharing.Counts.{in_slots-set, in_storages-remove_at}
use statsig_cpp_core.Storage.Sharing.Safety.{start, reachable-IsBalanced}
use statsig_cpp_core.Storage.Sharing.Refines.{live_start, sharing_refines_live, get_elem?-map}

-- A storage with a slot has its callbacks there.
slot_owned :
    (q : Pool) (i k : ℕ) (s : Holder)
    → Reach start q
    → get_elem? q.storages i ≡ some s
    → s.slot ≡ pos k
    → get_elem? q.slots k ≡ some (some s.callbacks)
slot_owned q i k s way at slot =
    let (p, on, sim) = sharing_refines_live q way in
    let (t, at', same) =
      get_elem?-map p.live i s (ap (λ l. get_elem? l i) (sym sim.storages) ∙ at) in
    let v = reachable-IsConsistent live_start p (refl, refl) on in
    let own : OwnsAt p.world.slots t (pos k) =
      subst (OwnsAt p.world.slots t) (ap (λ (h : Holder). h.slot) same ∙ slot)
        (All-at (Owns p.world.slots) p.live i t at' v.owns) in
    ap (λ l. get_elem? l k) sim.slots ∙ own.0 ∙ ap (λ (h : Holder). some (some h.callbacks)) same

-- The end of a pointer that is not the last one.
locked-drop_locked :
    (c : ℕ) (p : Pool) → 2 ≤ p.counts c → (drop_locked c p).freed_locked ≡ p.freed_locked
unfolding drop_locked
locked-drop_locked c p h = ground (arith, h)

locked-release_at :
    (k c : ℕ) (p : Pool)
    → get_elem? p.slots k ≡ some (some c)
    → 2 ≤ p.counts c
    → (release (pos k) p).freed_locked ≡ p.freed_locked
unfolding release drop_entry
locked-release_at k c p e h = rw e (locked-drop_locked c p h)

counts_held :
    (q : Pool) (i k c : ℕ) (s : Holder)
    → Reach start q
    → get_elem? q.storages i ≡ some s
    → s.callbacks ≡ c
    → get_elem? q.slots k ≡ some (some c)
    → 2 ≤ q.counts c
counts_held q i k c s way at same held =
    let f : one c c ≡ 1 = ground arith in
    omega (
      arith,
      f,
      (reachable-IsBalanced q c way).refs,
      in_slots-set c q.slots k (some c) none held,
      in_storages-remove_at c q.storages i s at,
      ap (one c) same,
    )

locked-release :
    (z : ℤ) (q : Pool) (i : ℕ) (s : Holder)
    → Reach start q
    → get_elem? q.storages i ≡ some s
    → s.slot ≡ z
    → (release z q).freed_locked ≡ q.freed_locked
unfolding release
locked-release (negsuc n) q i s way at slot = refl
locked-release (pos k) q i s way at slot =
    let held = slot_owned q i k s way at slot in
    locked-release_at k s.callbacks q held (counts_held q i k s.callbacks s way at refl held)

locked-settle :
    (create : Functions → ℕ) (c : ℕ) (p : Pool)
    → 2 ≤ p.counts c
    → (settle create c (claim_slot p.slots (some c)) p).freed_locked ≡ p.freed_locked
unfolding settle drop
locked-settle create c p h = elim (claim_slot_lowest p.slots (some c)) [
  | inl (full, e) ↦ rw e refl
  | inr (k, free, _, e) ↦
      let p' : Pool = record p { slots = set p.slots k (some c) } in
      elim (Bool-cases (create (functions k) == 0)) [
        | inl zero_ref ↦
            rw (e, zero_ref)
              (locked-release_at k c p'
                (get_elem?-set_self p.slots k (some c) (get_elem?-lt p.slots k none free)) h)
        | inr ref ↦ rw (e, ref) refl
      ]
]

locked-construct :
    (create : Functions → ℕ) (p : Pool) → (construct create p).freed_locked ≡ p.freed_locked
unfolding construct retain allocate
locked-construct create p = locked-settle create p.next (retain p.next (allocate p)) (ground arith)

locked-destroy :
    (i : ℕ) (s : Holder) (p : Pool)
    → Reach start p
    → get_elem? p.storages i ≡ some s
    → (destroy i s p).freed_locked ≡ p.freed_locked
unfolding destroy
locked-destroy i s p way at = locked-release s.slot p i s way at refl

locked-enter_with : (o : Option ℕ) (p : Pool) → (enter_with o p).freed_locked ≡ p.freed_locked
unfolding enter_with retain
locked-enter_with none p = refl
locked-enter_with (some c) p = refl

-- In every state that interleavings of constructions, destructions and dispatches reach from the
-- start, no callbacks have been freed while the mutex was held, so that no destructor of callbacks
-- has run under it: whenever a destruction or a refused construction gives up the pointer of its
-- slot, under the mutex, the storage still has its own.
pub locked_frees_none : (q : Pool) → Reach start q → q.freed_locked ≡ []
unfolding enter leave end_members drop
locked_frees_none q here = refl
locked_frees_none q (next {q = p} way (constructs create)) =
    locked-construct create p ∙ locked_frees_none p way
locked_frees_none q (next {q = p} way (destroys i s e)) =
    locked-destroy i s p way e ∙ locked_frees_none p way
locked_frees_none q (next {q = p} way (ends i c e)) = locked_frees_none p way
locked_frees_none q (next {q = p} way (enters slot)) =
    locked-enter_with _ p ∙ locked_frees_none p way
locked_frees_none q (next {q = p} way (leaves i c e)) = locked_frees_none p way
