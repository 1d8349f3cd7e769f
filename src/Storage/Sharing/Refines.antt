-- ===== src/Storage/Sharing/Refines.antt =====
-- The pool with shared pointers does to slots and storages what `Storage` does, so that what is
-- proved of `Storage.Live` holds while dispatches run.
use statsig_cpp_core.Prelude.{
  ℕ, zero, suc, ◌≡◌, refl, ap, sym, ◌∙◌, inl, inr, Option, none, some, some-injective, List, [],
  ◌∷◌, map, set, get_elem?, remove_at, ◌==◌, Bool-cases, subst,
}
use statsig_cpp_core.Storage.Tables.{Functions, functions}
use statsig_cpp_core.Json.{ℤ, pos, negsuc}
use statsig_cpp_core.Slots.{empty_slots, claim_slot, release_slot}
use statsig_cpp_core.Slots.Claim.{claim_slot_lowest}
use statsig_cpp_core.Host.{World}
use statsig_cpp_core.Storage
use statsig_cpp_core.Storage.{PersistentStorage}
use statsig_cpp_core.Storage.Outcome.{slots-destroy}
use statsig_cpp_core.Storage.Live
use statsig_cpp_core.Storage.Live.{Process}
use statsig_cpp_core.Storage.Sharing.{
  Holder, Pool, allocate, retain, drop, drop_locked, drop_entry, release, settle, construct,
  destroy, enter_with, enter, leave, Step, constructs, destroys, ends, enters, leaves, Reach, here,
  next, end_members,
}
use statsig_cpp_core.Storage.Sharing.Pointers.{storages-release}
use statsig_cpp_core.Storage.Sharing.Safety.{start}

abbrev pub holder : PersistentStorage → Holder
holder t = record { callbacks = t.callbacks; slot = t.slot }

abbrev pub live_start : Process (Unit {0})
live_start = record {
  world = record { slots = empty_slots; events = []; buffer = ""; user = tt };
  live = [];
}

-- The pool has the slots and the storages of the process.
pub record Simulates (p : Pool) (q : Process (Unit {0})) : Type 0 where
  pub slots : p.slots ≡ q.world.slots
  pub storages : p.storages ≡ map holder q.live

pub get_elem?-map :
    (live : List PersistentStorage) (i : ℕ) (s : Holder)
    → get_elem? (map holder live) i ≡ some s
    → (t : PersistentStorage) × (get_elem? live i ≡ some t) × (holder t ≡ s)
get_elem?-map [] i s e = cc
get_elem?-map (t ∷ live) zero s e = (t, refl, some-injective (holder t) s e)
get_elem?-map (t ∷ live) (suc i) s e = get_elem?-map live i s e

remove_at-map :
    (live : List PersistentStorage) (i : ℕ)
    → remove_at i (map holder live) ≡ map holder (remove_at i live)
remove_at-map [] i = refl
remove_at-map (t ∷ live) zero = refl
remove_at-map (t ∷ live) (suc i) = ap (λ l. holder t ∷ l) (remove_at-map live i)

slots-release_entry :
    (k : ℕ) (o : Option (Option ℕ)) (p : Pool)
    → set (drop_entry o p).slots k none ≡ set p.slots k none
unfolding drop_entry drop_locked drop
slots-release_entry k none p = refl
slots-release_entry k (some none) p = refl
slots-release_entry k (some (some d)) p = refl

release-eq :
    (z : ℤ) (p : Pool)
    → ((release z p).slots ≡ release_slot p.slots z) × ((release z p).storages ≡ p.storages)
unfolding release release_slot
release-eq (negsuc n) p = (refl, refl)
release-eq (pos k) p = (slots-release_entry k (get_elem? p.slots k) p, storages-release (pos k) p)

settle-eq :
    (create : Functions → ℕ) (d : ℕ) (p : Pool) (w : World (Unit {0}))
    → p.slots ≡ w.slots
    → let r = settle create d (claim_slot p.slots (some d)) p in
      let r' = Storage.construct create d w in
      (r.slots ≡ r'.1.slots) × (r.storages ≡ holder r'.0 ∷ p.storages)
unfolding settle Storage.construct Storage.register drop
settle-eq create d p w same = elim (claim_slot_lowest w.slots (some d)) [
  | inl (full, e) ↦ rw (same, e) (refl, refl)
  | inr (k, free, _, e) ↦ elim (Bool-cases (create (functions k) == 0)) [
    | inl zero_ref ↦
        let r = release-eq (pos k) (record p { slots = set w.slots k (some d) }) in
        rw (same, e, zero_ref) (r.0, ap (λ l. record { callbacks = d; slot = negsuc 0 } ∷ l) r.1)
    | inr ref ↦ rw (same, e, ref) (refl, refl)
  ]
]

construct-Simulates :
    (create : Functions → ℕ) (p : Pool) (q : Process (Unit {0}))
    → Simulates p q
    → Simulates (construct create p) (record {
      world = (Storage.construct create p.next q.world).1;
      live = (Storage.construct create p.next q.world).0 ∷ q.live;
    })
unfolding construct retain allocate
construct-Simulates create p q sim =
    let e = settle-eq create p.next (retain p.next (allocate p)) q.world sim.slots in
    record {
      slots = e.0;
      storages =
          e.1 ∙ ap (λ l. holder (Storage.construct create p.next q.world).0 ∷ l) sim.storages;
    }

destroy-Simulates :
    (i : ℕ) (t : PersistentStorage) (p : Pool) (q : Process (Unit {0}))
    → Simulates p q
    → Simulates
        (destroy i (holder t) p)
        (record { world = Storage.destroy t q.world; live = remove_at i q.live })
unfolding destroy
destroy-Simulates i t p q sim = record {
  slots =
      (release-eq t.slot p).0
      ∙ ap (λ l. release_slot l t.slot) sim.slots
      ∙ sym (slots-destroy t q.world);
  storages = ap (remove_at i) ((release-eq t.slot p).1 ∙ sim.storages) ∙ remove_at-map q.live i;
}

enter_with-Simulates :
    (o : Option ℕ) (p : Pool) (q : Process (Unit {0}))
    → Simulates p q
    → Simulates (enter_with o p) q
unfolding enter_with retain
enter_with-Simulates none p q sim = sim
enter_with-Simulates (some c) p q sim = record { slots = sim.slots; storages = sim.storages }

-- One step of the pool is a step of the process, or none.
Step-Simulates :
    {p p' : Pool} (q : Process (Unit {0}))
    → Step p p'
    → Simulates p q
    → (q' : Process (Unit {0})) × (Live.Reach q q') × Simulates p' q'
unfolding enter leave end_members drop
Step-Simulates {p} q (constructs create) sim = (
  _,
  Live.Reach.next Live.Reach.here (Live.Step.constructs create p.next),
  construct-Simulates create p q sim,
)
Step-Simulates {p} q (destroys i s e) sim =
    let (t, at, same) = get_elem?-map q.live i s (sym (ap (λ l. get_elem? l i) sim.storages) ∙ e) in
    (
      _,
      Live.Reach.next Live.Reach.here (Live.Step.destroys i t at),
      subst
          (λ u.
            Simulates (destroy i u p)
              (record { world = Storage.destroy t q.world; live = remove_at i q.live }))
          same (destroy-Simulates i t p q sim),
    )
Step-Simulates {p} q (ends i c e) sim =
    (q, Live.Reach.here, record { slots = sim.slots; storages = sim.storages })
Step-Simulates {p} q (enters slot) sim = (q, Live.Reach.here, enter_with-Simulates _ p q sim)
Step-Simulates {p} q (leaves i c e) sim =
    (q, Live.Reach.here, record { slots = sim.slots; storages = sim.storages })

Reach-trans : {p q r : Process (Unit {0})} → Live.Reach p q → Live.Reach q r → Live.Reach p r
Reach-trans way Live.Reach.here = way
Reach-trans way (Live.Reach.next other step) = Live.Reach.next (Reach-trans way other) step

-- The pool with shared pointers and running dispatches refines the one without: for each state
-- that it reaches there is a sequence of constructions and destructions of storages that leads to
-- the same slots and to storages with the same callbacks and slots.
pub sharing_refines_live :
    (p : Pool) → Reach start p → (q : Process (Unit {0})) × Live.Reach live_start q × Simulates p q
sharing_refines_live p here =
    (live_start, Live.Reach.here, record { slots = refl; storages = refl })
sharing_refines_live p (next way step) =
    let (q, on, sim) = sharing_refines_live _ way in
    let (q', more, sim') = Step-Simulates q step sim in (q', Reach-trans on more, sim')
