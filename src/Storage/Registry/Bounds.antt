-- ===== src/Storage/Registry/Bounds.antt =====
-- The accesses to the pool and to the tables are in range.
use statsig_cpp_core.Prelude.{
  ℕ, ◌<◌, String, ◌≡◌, ◌∙◌, ap, sym, some, some-injective, none, Option, length, get_elem?-lt,
  subst, inl, inr, ◌==◌, Bool-cases,
}
use statsig_cpp_core.Json.{JsonApi, ℤ, pos, negsuc}
use statsig_cpp_core.Slots.{max_slots}
use statsig_cpp_core.Host.{Faults}
use statsig_cpp_core.Storage.Tables.{Functions, functions}
use statsig_cpp_core.Storage.Dispatch.{PersistentStorageCallbacks}
use statsig_cpp_core.Storage.Dispatch.Trampolines.{
  load_table, save_table, delete_table, length-tables,
}
use statsig_cpp_core.Storage.{PersistentStorage}
use statsig_cpp_core.Storage.Registry.Consistent.{update_cases}
use statsig_cpp_core.Storage.Registry.{
  Object, Registry, claim, enroll, withdraw, unregister, clear, Step, claims, enrolls, withdraws,
  unregisters, clears, other, Reach, here, next,
}
use statsig_cpp_core.Storage.Registry.Reached.{IsStart, reached-IsConsistent}

-- Whatever is registered is the functions of a slot, each for its own parameter.
AreFormed : (ℕ → Option Functions) → Type 0
AreFormed entries =
    (ref : ℕ) (fs : Functions) → entries ref ≡ some fs → (k : ℕ) × (fs ≡ functions k)

module _ {U : Type 0} where
  enroll-AreFormed :
      (i ref : ℕ) (s : PersistentStorage) (z : ℤ) (r : Registry U)
      → AreFormed r.entries
      → AreFormed (enroll i s ref z r).entries
  unfolding enroll AreFormed
  enroll-AreFormed i ref s (negsuc n) r h = h
  enroll-AreFormed i ref s (pos k) r h = elim (Bool-cases (ref == 0)) [
    | inl z ↦ rw z h
    | inr n ↦ rw n (λ ref' fs e. elim (update_cases ref ref' (some (functions k)) r.entries fs e) [
      | inl (_, is) ↦ (k, some-injective fs (functions k) (sym is))
      | inr (_, before) ↦ h ref' fs before
    ])
  ]

  unregister-AreFormed :
      (i : ℕ) (s : PersistentStorage) (r : Registry U)
      → AreFormed r.entries
      → AreFormed (unregister i s r).entries
  unfolding unregister AreFormed
  unregister-AreFormed i s r h = elim (Bool-cases (s.ref == 0)) [
    | inl z ↦ rw z h
    | inr n ↦ rw n (λ ref fs e. elim (update_cases s.ref ref none r.entries fs e) [
      | inl (_, is) ↦ cc
      | inr (_, before) ↦ h ref fs before
    ])
  ]

  Step-AreFormed : {p q : Registry U} → Step p q → AreFormed p.entries → AreFormed q.entries
  unfolding claim withdraw clear
  Step-AreFormed (claims i c new) h = h
  Step-AreFormed {p = p} (enrolls i ref s e new) h = enroll-AreFormed i ref s s.slot p h
  Step-AreFormed (withdraws i s e) h = h
  Step-AreFormed {p = p} (unregisters i s e) h = unregister-AreFormed i s p h
  Step-AreFormed (clears i s e) h = h
  Step-AreFormed (other w e) h = h

  Reach-AreFormed : {p q : Registry U} → AreFormed p.entries → Reach p q → AreFormed q.entries
  Reach-AreFormed h here = h
  Reach-AreFormed h (next way step) = Step-AreFormed step (Reach-AreFormed h way)

  start-AreFormed : (p : Registry U) → IsStart p → AreFormed p.entries
  unfolding AreFormed
  start-AreFormed p (_, _, none_yet) ref fs e = absurd (let h = none_yet ref in cc)

module _ (api : JsonApi) {U : Type 0} (heap : ℕ → PersistentStorageCallbacks api.Json U)
    (faults : Faults) (memory : ℕ → ℕ → String) where
  -- At each moment of any interleaving of constructions and destructions of storages, the pool has
  -- 32 slots and each of the three tables 32 entries, the slot of every storage is below 32, and
  -- what the native side has for a ref is always the functions of one slot below 32, each as its
  -- own parameter.
  pub slots_in_range :
      (p q : Registry U)
      → IsStart p
      → Reach p q
      → (length q.world.slots ≡ max_slots)
        × (length (load_table api heap faults memory) ≡ max_slots)
        × (length (save_table api heap faults memory) ≡ max_slots)
        × (length (delete_table api heap faults memory) ≡ max_slots)
        × ((i k : ℕ) (o : Object) → q.objects i ≡ some o → o.storage.slot ≡ pos k → k < max_slots)
        × ((ref : ℕ) (fs : Functions)
            → q.entries ref ≡ some fs
            → (k : ℕ) × (fs ≡ functions k) × (k < max_slots))
  unfolding AreFormed
  slots_in_range p q begin way =
      let v = reached-IsConsistent p q begin way in
      let (loads, saves, deletes) = length-tables api heap faults memory in
      let below : (i k : ℕ) (o : Object)
          → q.objects i ≡ some o
          → o.storage.slot ≡ pos k
          → k < max_slots =
        λ i k o e at.
          subst (λ n. k < n) v.size (get_elem?-lt q.world.slots k _ (v.owns i k o e at)) in
      (
        v.size,
        loads,
        saves,
        deletes,
        below,
        λ ref fs there.
            let (k, is) = Reach-AreFormed (start-AreFormed p begin) way ref fs there in
            let (i, o, e, _, at, _) = v.owned ref k (there ∙ ap some is) in
            (k, is, below i k o e at),
      )
