-- ===== src/Storage/Dispatch/Ownership.antt =====
-- The strings that the native side hands over are freed, once.
use statsig_cpp_core.Prelude.{ℕ, String, ◌≡◌, refl, ◌||◌, Option, none, some, str_eq}
use statsig_cpp_core.Prelude.Effects.{Exec}
use statsig_cpp_core.Json.{JsonApi}
use statsig_cpp_core.Sticky.{StickyValues, UserPersistedValues, sticky_from_json, persisted_to_json}
use statsig_cpp_core.Host.{World, Faults, free_args, member}
use statsig_cpp_core.Storage.Dispatch.{
  PersistentStorageCallbacks, store_result, lacks_string, lacks_object, save_args, delete_args,
  load_args, load_found, save_found, delete_found, dispatch_load, dispatch_save, dispatch_delete,
}
use statsig_cpp_core.Host.Frees.{
  Keeps, FreesOnce, Keeps-pure, Keeps-bind, Keeps-lift_bind, Keeps-if, FreesOnce-bind,
  FreesOnce-after, FreesOnce-try, FreesOnce-free_args, FreesOnce-consume_args,
  load_callbacks_returns,
}

module _ (api : JsonApi) {U : Type 0} (p : ℕ) where
  -- No callback frees the string at `p`.
  pub record LeavesAlone (cbs : PersistentStorageCallbacks api.Json U) : Type 0 where
    pub load :
        (f : String → Exec (World U) (Option (UserPersistedValues api.Json)))
        → cbs.load ≡ some f
        → (key : String) → Keeps p (f key)
    pub save :
        (f : String → String → StickyValues api.Json → Exec (World U) (Unit {0}))
        → cbs.save ≡ some f
        → (key name : String) (v : StickyValues api.Json) → Keeps p (f key name v)
    pub delete_value :
        (f : String → String → Exec (World U) (Unit {0}))
        → cbs.delete_value ≡ some f
        → (key name : String) → Keeps p (f key name)

  store_result-Keeps :
      (r : Option (UserPersistedValues api.Json)) → Keeps p (store_result api {U = U} r)
  unfolding store_result
  store_result-Keeps none = Keeps-pure p none
  store_result-Keeps (some values) =
      Keeps-lift_bind p (api.dump (persisted_to_json api values)) _
        (λ text. record { at = λ w. refl })

  save_args-Keeps :
      (f : String → String → StickyValues api.Json → Exec (World U) (Unit {0}))
      (o : Option api.Json)
      → ((key name : String) (v : StickyValues api.Json) → Keeps p (f key name v))
      → Keeps p (save_args api f o)
  unfolding save_args
  save_args-Keeps f none h = Keeps-pure p tt
  save_args-Keeps f (some args) h =
      Keeps-if p
        (lacks_string api args "key"
          || lacks_string api args "config_name"
          || lacks_object api args "data")
        _ _ (Keeps-pure p tt)
        (Keeps-lift_bind p (api.get_string (api.index args "key")) _ (λ key.
          Keeps-lift_bind p (api.get_string (api.index args "config_name")) _ (λ name.
            Keeps-lift_bind p (sticky_from_json api (api.index args "data")) _
              (λ v. h key name v))))

  delete_args-Keeps :
      (f : String → String → Exec (World U) (Unit {0})) (o : Option api.Json)
      → ((key name : String) → Keeps p (f key name))
      → Keeps p (delete_args api f o)
  unfolding delete_args
  delete_args-Keeps f none h = Keeps-pure p tt
  delete_args-Keeps f (some args) h =
      Keeps-if p (lacks_string api args "key" || lacks_string api args "config_name") _ _
        (Keeps-pure p tt)
        (Keeps-lift_bind p (api.get_string (api.index args "key")) _ (λ key.
          Keeps-lift_bind p (api.get_string (api.index args "config_name")) _ (λ name. h key name)))

module _ (api : JsonApi) {U : Type 0} (heap : ℕ → PersistentStorageCallbacks api.Json U)
    (faults : Faults) (memory : ℕ → ℕ → String) (p : ℕ)
    (alone : (c : ℕ) → LeavesAlone api p (heap c)) (lock : faults.lock ≡ none)
    (alloc : faults.alloc ≡ none) where
  load_found-FreesOnce :
      (n : ℕ) (o : Option (String → Exec (World U) (Option (UserPersistedValues api.Json))))
      → ((f : String → Exec (World U) (Option (UserPersistedValues api.Json)))
          → o ≡ some f
          → (key : String) → Keeps p (f key))
      → FreesOnce p (load_found api heap faults memory o (some p) n)
  unfolding load_found load_args
  load_found-FreesOnce n none h =
      FreesOnce-bind p (free_args (some p)) _ (FreesOnce-free_args p) (λ _. Keeps-pure p none)
  load_found-FreesOnce n (some f) h =
      FreesOnce-bind p _ _ (FreesOnce-consume_args p faults memory n alloc) (λ key.
        Keeps-if p (str_eq key "") _ _ (Keeps-pure p none)
          (Keeps-bind p _ _ (h f refl key) (λ r. store_result-Keeps api p r)))

  save_found-FreesOnce :
      (n : ℕ) (o : Option (String → String → StickyValues api.Json → Exec (World U) (Unit {0})))
      → ((f : String → String → StickyValues api.Json → Exec (World U) (Unit {0}))
          → o ≡ some f
          → (key name : String) (v : StickyValues api.Json) → Keeps p (f key name v))
      → FreesOnce p (save_found api heap faults memory o (some p) n)
  unfolding save_found
  save_found-FreesOnce n none h = FreesOnce-free_args p
  save_found-FreesOnce n (some f) h =
      FreesOnce-bind p _ _ (FreesOnce-consume_args p faults memory n alloc)
        (λ raw. save_args-Keeps api p f (api.parse_quiet raw) (h f refl))

  delete_found-FreesOnce :
      (n : ℕ) (o : Option (String → String → Exec (World U) (Unit {0})))
      → ((f : String → String → Exec (World U) (Unit {0}))
          → o ≡ some f
          → (key name : String) → Keeps p (f key name))
      → FreesOnce p (delete_found api heap faults memory o (some p) n)
  unfolding delete_found
  delete_found-FreesOnce n none h = FreesOnce-free_args p
  delete_found-FreesOnce n (some f) h =
      FreesOnce-bind p _ _ (FreesOnce-consume_args p faults memory n alloc)
        (λ raw. delete_args-Keeps api p f (api.parse_quiet raw) (h f refl))

  member-LeavesAlone :
      {F : Type 0} (get : PersistentStorageCallbacks api.Json U → Option F) (P : F → Type 0)
      → ((c : ℕ) (f : F) → get (heap c) ≡ some f → P f)
      → (cbs : Option ℕ) (f : F) → member heap get cbs ≡ some f
      → P f
  member-LeavesAlone get P h none f e = cc
  member-LeavesAlone get P h (some c) f e = h c f e

  -- For any arguments at an address, and callbacks that do not free it themselves, each of
  -- dispatch_load, dispatch_save and dispatch_delete frees it exactly once, whatever is in the
  -- slot, whatever the arguments hold and whether the callback returns or throws, if neither the
  -- lock nor the allocation of the copy fails.
  pub dispatch_frees_args :
      (slot n : ℕ)
      → FreesOnce p (dispatch_load api heap faults memory slot (some p) n)
        × FreesOnce p (dispatch_save api heap faults memory slot (some p) n)
        × FreesOnce p (dispatch_delete api heap faults memory slot (some p) n)
  unfolding dispatch_load dispatch_save dispatch_delete
  dispatch_frees_args slot n = (
    FreesOnce-try p _ none (
        FreesOnce-after p _ _ (load_callbacks_returns p faults slot lock) (λ cbs.
          load_found-FreesOnce n (member heap (λ c. c.load) cbs) (
            member-LeavesAlone (λ c. c.load) (λ f. (key : String) → Keeps p (f key))
              (λ c. (alone c).load) cbs))),
    FreesOnce-try p _ tt (
        FreesOnce-after p _ _ (load_callbacks_returns p faults slot lock) (λ cbs.
          save_found-FreesOnce n (member heap (λ c. c.save) cbs) (
            member-LeavesAlone (λ c. c.save)
              (λ f. (key name : String) (v : StickyValues api.Json) → Keeps p (f key name v))
              (λ c. (alone c).save) cbs))),
    FreesOnce-try p _ tt (
        FreesOnce-after p _ _ (load_callbacks_returns p faults slot lock) (λ cbs.
          delete_found-FreesOnce n (member heap (λ c. c.delete_value) cbs) (
            member-LeavesAlone (λ c. c.delete_value)
              (λ f. (key name : String) → Keeps p (f key name)) (λ c. (alone c).delete_value)
              cbs))),
  )
