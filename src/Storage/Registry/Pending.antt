-- ===== src/Storage/Registry/Pending.antt =====
-- Calls of the native side that are under way: it has looked up the functions for a ref, and the one
-- that it calls
-- of this slot has not loaded the callbacks yet.
pub mod Late
use statsig_cpp_core.Prelude.{
  ℕ, ◌≡◌, ◌≢◌, refl, ap, subst, sym, ◌∙◌, Option, none, some, List, [], ◌∷◌, get_elem?, arith, All,
  All-at, All-remove_at, remove_at, ◌==◌,
}
use statsig_cpp_core.Json.{pos}
use statsig_cpp_core.Slots.{empty_slots, load_callbacks, claim_slot, claim_loop, release_slot}
use statsig_cpp_core.Host.{World}
use statsig_cpp_core.Storage.Tables.{functions}
use statsig_cpp_core.Storage.Registry
use statsig_cpp_core.Storage.Registry.{
  Phase, Object, Registry, new_storage, claim, enroll, unregister, clear, claims, enrolls,
  unregisters, clears,
}
use statsig_cpp_core.Storage.Registry.Reached
use statsig_cpp_core.Storage.Registry.Reached.{entries_exact}

pub record Call : Type 0 where
  pub ref : ℕ
  pub slot : ℕ

pub record Traffic (U : Type 0) : Type 0 where
  pub registry : Registry U
  pub pending : List Call

module _ {U : Type 0} where
  -- What src/persistent_storage.h asks of a user, to destroy a storage only once its Statsig instance
  -- has shut down: a step takes no entry away that a call under way has been looked up in.
  abbrev pub IsQuiet : Traffic U → Registry U → Type 0
  IsQuiet t r = All (λ c. r.entries c.ref ≡ some (functions c.slot)) t.pending

  -- No such care.
  abbrev pub Always : Traffic U → Registry U → Type 0
  Always t r = Unit

  module _ (Permits : Traffic U → Registry U → Type 0) where
    pub data Step (t : Traffic U) : Traffic U → Type 0 where
      -- a step of a constructor or a destructor
      acts :
          {r : Registry U}
          → Registry.Step t.registry r
          → Permits t r
          → Step t (record t { registry = r })
      looks_up :
          (ref k : ℕ)
          → t.registry.entries ref ≡ some (functions k)
          → Step t (record t { pending = record { ref = ref; slot = k } ∷ t.pending })
      -- `load_callbacks` of the function; from here on the callbacks are held
      loads :
          (i : ℕ) (c : Call)
          → get_elem? t.pending i ≡ some c
          → Step t (record t { pending = remove_at i t.pending })

    pub data Reach (t : Traffic U) : Traffic U → Type 0 where
      here : Reach t t
      next : {q r : Traffic U} → Reach t q → Step q r → Reach t r

  abbrev pub IsStart : Traffic U → Type 0
  IsStart t = Reached.IsStart t.registry × (t.pending ≡ [])

  abbrev AreKept : Traffic U → Type 0
  AreKept t = All (λ c. t.registry.entries c.ref ≡ some (functions c.slot)) t.pending

  Step-AreKept : {t u : Traffic U} → Step IsQuiet t u → AreKept t → AreKept u
  Step-AreKept (Step.acts step kept) h = kept
  Step-AreKept (Step.looks_up ref k e) h = (e, h)
  Step-AreKept {t} (Step.loads i c e) h = All-remove_at _ t.pending i h

  Reach-AreKept : {t u : Traffic U} → Reach IsQuiet t u → AreKept t → AreKept u
  Reach-AreKept Reach.here h = h
  Reach-AreKept (Reach.next way step) h = Step-AreKept step (Reach-AreKept way h)

  Reach-registry :
      {Permits : Traffic U → Registry U → Type 0} {t u : Traffic U}
      → Reach Permits t u
      → Registry.Reach t.registry u.registry
  Reach-registry Reach.here = Registry.Reach.here
  Reach-registry (Reach.next way (Step.acts step kept)) =
      Registry.Reach.next (Reach-registry way) step
  Reach-registry (Reach.next way (Step.looks_up ref k e)) = Reach-registry way
  Reach-registry (Reach.next way (Step.loads i c e)) = Reach-registry way

  -- If no step takes away an entry of the native side that a call under way has been looked up in
  -- (as src/persistent_storage.h asks, which has storages destroyed only once their Statsig
  -- instance has shut down), and the native side gives no ref that it still has, then at each
  -- moment of any interleaving of calls, constructions and destructions, the slot of each call
  -- under way holds the callbacks of the storage whose ref the call is for.
  pub calls_find_own :
      (p q : Traffic U) (i : ℕ) (c : Call)
      → IsStart p
      → Reach IsQuiet p q
      → get_elem? q.pending i ≡ some c
      → (j : ℕ) × (o : Object) × (q.registry.objects j ≡ some o)
        × (o.storage.ref ≡ c.ref)
        × (load_callbacks q.registry.world.slots c.slot ≡ some o.storage.callbacks)
  calls_find_own p q i c (begin, none_pending) way e =
      let kept : AreKept q = Reach-AreKept way (rw none_pending tt) in
      let entry = All-at _ q.pending i c e kept in
      let (j, o, at, is, _, _, held) =
        (entries_exact p.registry q.registry c.ref c.slot begin (Reach-registry way)).0 entry in
      (j, o, at, is, held)
