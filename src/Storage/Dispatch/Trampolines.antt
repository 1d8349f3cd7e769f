-- ===== src/Storage/Dispatch/Trampolines.antt =====
-- src/persistent_storage.cpp: the functions of a slot, the tables of them, and the functions that
-- the constructor hands to the native side.
use statsig_cpp_core.Prelude.{
  ℕ, ◌<◌, String, ◌≡◌, refl, ap, ◌∙◌, Option, none, some, List, map, get_elem?, get_elem?-lt,
  range_from, length, length-map-range_from, get_elem?-map-range, All-at, subst, arith,
}
use statsig_cpp_core.Prelude.Effects.{Exec, try_catch}
use statsig_cpp_core.Json.{JsonApi, pos}
use statsig_cpp_core.Slots
use statsig_cpp_core.Slots.{max_slots}
use statsig_cpp_core.Host.{World, Faults, report}
use statsig_cpp_core.Host.Held.{callbacks_held}
use statsig_cpp_core.Storage.Tables.{
  TableEntry, load_entry, save_entry, delete_entry, Functions, functions,
}
use statsig_cpp_core.Storage.{PersistentStorage}
use statsig_cpp_core.Storage.Dispatch.{
  PersistentStorageCallbacks, load_found, save_found, delete_found, load_body, save_body,
  delete_body, dispatch_load, dispatch_save, dispatch_delete,
}
use statsig_cpp_core.Storage.Live.{Process, Owns, OwnsAt, Reach}
use statsig_cpp_core.Storage.Live.Reachable.{IsStart, reachable-IsConsistent, dispatch_own}

-- `LoadFn` and `ArgFn`
abbrev pub LoadFn : Type 0 → Type 0
LoadFn U = Option ℕ → ℕ → Exec (World U) (Option String)

abbrev pub ArgFn : Type 0 → Type 0
ArgFn U = Option ℕ → ℕ → Exec (World U) (Unit {0})

module _ (api : JsonApi) {U : Type 0} (heap : ℕ → PersistentStorageCallbacks api.Json U)
    (faults : Faults) (memory : ℕ → ℕ → String) where
  -- `Trampoline<Slot>`
  pub trampoline_load : ℕ → LoadFn U
  trampoline_load slot p len = dispatch_load api heap faults memory slot p len

  pub trampoline_save : ℕ → ArgFn U
  trampoline_save slot p len = dispatch_save api heap faults memory slot p len

  pub trampoline_delete_value : ℕ → ArgFn U
  trampoline_delete_value slot p len = dispatch_delete api heap faults memory slot p len

  -- The argument is the list of the numbers of the index sequence.
  make_load_table : List ℕ → List (LoadFn U)
  unfolding trampoline_load
  make_load_table indices = map trampoline_load indices

  make_save_table : List ℕ → List (ArgFn U)
  unfolding trampoline_save
  make_save_table indices = map trampoline_save indices

  make_delete_table : List ℕ → List (ArgFn U)
  unfolding trampoline_delete_value
  make_delete_table indices = map trampoline_delete_value indices

  -- `kLoadTable`, `kSaveTable` and `kDeleteTable`
  pub load_table : List (LoadFn U)
  unfolding make_load_table
  load_table = make_load_table (range_from 0 max_slots)

  pub save_table : List (ArgFn U)
  unfolding make_save_table
  save_table = make_save_table (range_from 0 max_slots)

  pub delete_table : List (ArgFn U)
  unfolding make_delete_table
  delete_table = make_delete_table (range_from 0 max_slots)

  pub length-tables :
      (length load_table ≡ max_slots)
      × (length save_table ≡ max_slots)
      × (length delete_table ≡ max_slots)
  unfolding load_table save_table delete_table make_load_table make_save_table make_delete_table
  length-tables = (
    length-map-range_from trampoline_load 0 max_slots,
    length-map-range_from trampoline_save 0 max_slots,
    length-map-range_from trampoline_delete_value 0 max_slots,
  )

  -- The callback of a storage, as a dispatch that finds it.
  abbrev pub runs_load : PersistentStorage → LoadFn U
  runs_load t p len =
      try_catch (load_found api heap faults memory (heap t.callbacks).load p len) (report none)

  abbrev pub runs_save : PersistentStorage → ArgFn U
  runs_save t p len =
      try_catch (save_found api heap faults memory (heap t.callbacks).save p len) (report tt)

  abbrev pub runs_delete : PersistentStorage → ArgFn U
  runs_delete t p len =
      try_catch (delete_found api heap faults memory (heap t.callbacks).delete_value p len)
        (report tt)

  -- In a state where slot `k` holds the callbacks of `t`, a function does what the callback of `t` does.
  abbrev pub RunsAs :
      {A : Type 0}
      → List (Option ℕ)
      → (Option ℕ → ℕ → Exec (World U) A)
      → (Option ℕ → ℕ → Exec (World U) A)
      → Type 0
  RunsAs slots f g =
      (p : Option ℕ) (len : ℕ) (w : World U) → w.slots ≡ slots → f p len w ≡ g p len w

  -- The function that an entry is, as a parameter of the one type or of the other.
  abbrev pub load_function : TableEntry → Option (LoadFn U)
  load_function (load_entry s) = get_elem? load_table s
  load_function (save_entry s) = none
  load_function (delete_entry s) = none

  abbrev pub arg_function : TableEntry → Option (ArgFn U)
  arg_function (load_entry s) = none
  arg_function (save_entry s) = get_elem? save_table s
  arg_function (delete_entry s) = get_elem? delete_table s

  -- The functions that are registered run the callbacks of a storage.
  abbrev pub FunctionsRun : List (Option ℕ) → Functions → PersistentStorage → Type 0
  FunctionsRun slots fs t =
      ((f : LoadFn U) × (load_function fs.load ≡ some f) × RunsAs slots f (runs_load t))
      × ((f : ArgFn U) × (arg_function fs.save ≡ some f) × RunsAs slots f (runs_save t))
      × ((f : ArgFn U) × (arg_function fs.delete_value ≡ some f) × RunsAs slots f (runs_delete t))

  -- The functions of a slot that holds the callbacks of a storage.
  pub held-FunctionsRun :
      (slots : List (Option ℕ)) (k : ℕ) (t : PersistentStorage)
      → faults.lock ≡ none
      → k < max_slots
      → Slots.load_callbacks slots k ≡ some t.callbacks
      → FunctionsRun slots (functions k) t
  unfolding load_table save_table delete_table make_load_table make_save_table make_delete_table
      trampoline_load trampoline_save trampoline_delete_value dispatch_load dispatch_save
      dispatch_delete load_body save_body delete_body
  held-FunctionsRun slots k t lock lt held =
      let found : (w : World U)
          → w.slots ≡ slots
          → Slots.load_callbacks w.slots k ≡ some t.callbacks =
        λ w e. ap (λ s. Slots.load_callbacks s k) e ∙ held in
      (
        (
          trampoline_load k,
          get_elem?-map-range trampoline_load max_slots k lt,
          λ p len w e. rw (callbacks_held faults k t.callbacks w lock (found w e)) refl,
        ),
        (
          trampoline_save k,
          get_elem?-map-range trampoline_save max_slots k lt,
          λ p len w e. rw (callbacks_held faults k t.callbacks w lock (found w e)) refl,
        ),
        (
          trampoline_delete_value k,
          get_elem?-map-range trampoline_delete_value max_slots k lt,
          λ p len w e. rw (callbacks_held faults k t.callbacks w lock (found w e)) refl,
        ),
      )

  -- If the lock does not fail, then in every state that constructions and destructions of storages
  -- reach, the entries of the three tables at the slot of a living storage are functions that run
  -- this storage's load, save and delete callbacks, for all arguments and in every state with the
  -- same pool.
  pub registered_functions :
      (from q : Process U) (i k : ℕ) (t : PersistentStorage)
      → faults.lock ≡ none
      → IsStart from
      → Reach from q
      → get_elem? q.live i ≡ some t
      → t.slot ≡ pos k
      → ((f : LoadFn U) × (get_elem? load_table k ≡ some f) × RunsAs q.world.slots f (runs_load t))
        × ((f : ArgFn U) × (get_elem? save_table k ≡ some f) × RunsAs q.world.slots f (runs_save t))
        × ((f : ArgFn U) × (get_elem? delete_table k ≡ some f)
            × RunsAs q.world.slots f (runs_delete t))
  registered_functions from q i k t lock begin way at slot =
      let v = reachable-IsConsistent from q begin way in
      let own : OwnsAt q.world.slots t (pos k) =
        subst (OwnsAt q.world.slots t) slot (All-at (Owns q.world.slots) q.live i t at v.owns) in
      held-FunctionsRun q.world.slots k t lock
        (omega (arith, get_elem?-lt q.world.slots k _ own.0, v.size))
        (dispatch_own from q i k t begin way at slot).0
