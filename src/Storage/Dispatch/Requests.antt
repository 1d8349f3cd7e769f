-- ===== src/Storage/Dispatch/Requests.antt =====
-- What the native side sees of a storage whose callbacks keep a map: sequences of saves, deletions
-- and loads through the dispatches of one slot.
pub mod Refines
use statsig_cpp_core.Prelude.{
  ℕ, String, ◌≡◌, refl, ap, sym, ◌∙◌, ◌⊎◌, inl, inr, Bool, true, false, ◌&&◌, Option, none, some,
  List, [], ◌∷◌, All, Dict, lookup, Result, ok, str_eq, if◌then◌else◌, arith,
}
use statsig_cpp_core.Prelude.Effects.{Exec, try_catch, run_try}
use statsig_cpp_core.Json.{JsonApi, JsonLaws}
use statsig_cpp_core.Sticky.{StickyValues, UserPersistedValues, sticky_to_json, persisted_to_json}
use statsig_cpp_core.Sticky.RoundTrip.{IsStorable}
use statsig_cpp_core.Json.Entries.{map_some}
use statsig_cpp_core.Sticky.Persisted.{find-persisted_to_json}
use statsig_cpp_core.Slots
use statsig_cpp_core.Host.{World, Faults, emit, freed, report}
use statsig_cpp_core.Storage.Dispatch.{
  PersistentStorageCallbacks, dispatch_load, dispatch_save, dispatch_delete,
}
use statsig_cpp_core.Storage.Dispatch.Calls.{dispatch_save_passes, dispatch_delete_passes}
use statsig_cpp_core.Storage.Dispatch.Loads.{dispatch_load_returns, dispatch_load_finds_none}

-- The sticky values of each key and config.
abbrev pub StickyMap : Type 0 → Type 0
StickyMap J = String → String → Option (StickyValues J)

module _ {J : Type 0} where
  abbrev pub put : String → String → Option (StickyValues J) → StickyMap J → StickyMap J
  put key name o m k i = if str_eq key k && str_eq name i then o else m k i

  abbrev pub entry : Option (UserPersistedValues J) → String → Option (StickyValues J)
  entry none i = none
  entry (some m) i = lookup i m

-- A callback that returns, leaves the pool alone and has an effect on what the user's state says.
module _ {J U : Type 0} (view : U → StickyMap J) where
  abbrev pub Runs : {A : Type 0} → Exec (World U) A → A → World U → StickyMap J → Type 0
  Runs f a w m =
      (w' : World U) × (f w ≡ (ok a, w'))
      × (w'.slots ≡ w.slots)
      × ((k i : String) → view w'.user k i ≡ m k i)

  -- Callbacks that do what their documentation asks for: they keep what is saved until it is
  -- deleted.
  pub record KeepsValues (cbs : PersistentStorageCallbacks J U) : Type 0 where
    pub load : String → Exec (World U) (Option (UserPersistedValues J))
    pub save : String → String → StickyValues J → Exec (World U) (Unit {0})
    pub delete_value : String → String → Exec (World U) (Unit {0})
    pub has_load : cbs.load ≡ some load
    pub has_save : cbs.save ≡ some save
    pub has_delete : cbs.delete_value ≡ some delete_value
    pub loads :
        (key : String) (w : World U)
        → (o : Option (UserPersistedValues J)) × ((i : String) → entry o i ≡ view w.user key i)
          × Runs (load key) o w (view w.user)
    pub saves :
        (key name : String) (v : StickyValues J) (w : World U)
        → Runs (save key name v) tt w (put key name (some v) (view w.user))
    pub deletes :
        (key name : String) (w : World U)
        → Runs (delete_value key name) tt w (put key name none (view w.user))

-- A request of the native side, with its arguments in `n` bytes at `p`.
pub data Request (J : Type 0) : Type 0 where
  save : (p n : ℕ) (key name : String) (v : StickyValues J) → Request J
  delete_value : (p n : ℕ) (key name : String) → Request J
  load : (p n : ℕ) (key : String) → Request J

abbrev pub after : {J : Type 0} → Request J → StickyMap J → StickyMap J
after (Request.save p n key name v) m = put key name (some v) m
after (Request.delete_value p n key name) m = put key name none m
after (Request.load p n key) m = m

abbrev pub after_all : {J : Type 0} → List (Request J) → StickyMap J → StickyMap J
after_all [] m = m
after_all (r ∷ rest) m = after_all rest (after r m)

module _ (api : JsonApi) (laws : JsonLaws api) (memory : ℕ → ℕ → String) where
  open api use {Json, parse_quiet, find, of_string}

  -- The arguments are those that the native side writes for the request.
  abbrev pub IsRequest : Request Json → Type 0
  IsRequest (Request.save p n key name v) =
      (args : Json) × (parse_quiet (memory p n) ≡ some args)
      × (find args "key" ≡ some (of_string key))
      × (find args "config_name" ≡ some (of_string name))
      × (find args "data" ≡ some (sticky_to_json api v))
      × IsStorable api laws v
  IsRequest (Request.delete_value p n key name) =
      (args : Json) × (parse_quiet (memory p n) ≡ some args)
      × (find args "key" ≡ some (of_string key))
      × (find args "config_name" ≡ some (of_string name))
  IsRequest (Request.load p n key) = (memory p n ≡ key) × (str_eq key "" ≡ false)

module _ (api : JsonApi) where
  open api use {Json, find}

  -- What a load returns: null, or the text of an object with the encoded values of each config.
  abbrev pub Tells : Result (Option String) → (String → Option (StickyValues Json)) → Type 0
  Tells r m =
      ((r ≡ ok none) × ((i : String) → m i ≡ none))
      ⊎ ((text : String) × (j : Json) × (r ≡ ok (some text))
          × (api.dump j ≡ ok text)
          × ((i : String) → find j i ≡ map_some (sticky_to_json api) (m i)))

  module _ {U : Type 0} (heap : ℕ → PersistentStorageCallbacks Json U) (faults : Faults)
      (memory : ℕ → ℕ → String) (slot : ℕ) where
    -- The dispatch of a request, and of all of a sequence.
    abbrev pub dispatch : Request Json → World U → World U
    dispatch (Request.save p n key name v) w =
        (dispatch_save api heap faults memory slot (some p) n w).1
    dispatch (Request.delete_value p n key name) w =
        (dispatch_delete api heap faults memory slot (some p) n w).1
    dispatch (Request.load p n key) w = (dispatch_load api heap faults memory slot (some p) n w).1

    abbrev pub dispatch_all : List (Request Json) → World U → World U
    dispatch_all [] w = w
    dispatch_all (r ∷ rest) w = dispatch_all rest (dispatch r w)
