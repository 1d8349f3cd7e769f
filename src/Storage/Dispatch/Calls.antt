-- ===== src/Storage/Dispatch/Calls.antt =====
-- Which callback is called with what.
use statsig_cpp_core.Prelude.{ℕ, String, ◌≡◌, refl, inl, inr, Option, none, some, ok, Bool-cases}
use statsig_cpp_core.Prelude.Effects.{Exec, try_catch}
use statsig_cpp_core.Json.{JsonApi, JsonLaws}
use statsig_cpp_core.Sticky.{StickyValues, sticky_to_json}
use statsig_cpp_core.Sticky.RoundTrip.{IsStorable, sticky_is_object, sticky_round_trip}
use statsig_cpp_core.Slots
use statsig_cpp_core.Host.{World, Faults, emit, freed, report}
use statsig_cpp_core.Host.Held.{callbacks_held, args_consumed}
use statsig_cpp_core.Storage.Dispatch.{
  PersistentStorageCallbacks, lacks_string, lacks_object, save_args, delete_args, dispatch_save,
  dispatch_delete,
}
use statsig_cpp_core.Storage.Dispatch.Args.{
  HasString, HasObject, lacks_string_found, lacks_object_found, HasString_of_lacks,
  HasObject_of_lacks,
}

module _ (api : JsonApi) (laws : JsonLaws api) {U : Type 0}
    (heap : ℕ → PersistentStorageCallbacks api.Json U) (faults : Faults) (memory : ℕ → ℕ → String)
    (lock : faults.lock ≡ none) (alloc : faults.alloc ≡ none) where
  open api use {Json, dump, parse_quiet, contains, index, get_string, find}

  save_args_passes :
      (args : Json) (save : String → String → StickyValues Json → Exec (World U) (Unit {0}))
      (key name : String) (v : StickyValues Json) (w : World U)
      → find args "key" ≡ some (api.of_string key)
      → find args "config_name" ≡ some (api.of_string name)
      → find args "data" ≡ some (sticky_to_json api v)
      → IsStorable api laws v
      → save_args api save (some args) w ≡ save key name v w
  unfolding save_args
  save_args_passes args save key name v w has_key has_name has_data storable =
      rw
        (
          lacks_string_found api laws args "key" key has_key,
          lacks_string_found api laws args "config_name" name has_name,
          lacks_object_found api laws args "data" _ has_data (sticky_is_object api laws v),
          laws.index_found args "key" _ has_key,
          laws.get_string-of_string key,
          laws.index_found args "config_name" _ has_name,
          laws.get_string-of_string name,
          laws.index_found args "data" _ has_data,
          sticky_round_trip api laws v storable,
        )
        refl

  -- If the lock and the copy do not fail, the slot has a save callback, and the arguments parse to
  -- a key, a config name and the JSON form of storable sticky values, the callback is run once, on
  -- just these, after the arguments are freed, and what it throws is caught.
  pub dispatch_save_passes :
      (slot c p n : ℕ) (args : Json)
      (save : String → String → StickyValues Json → Exec (World U) (Unit {0})) (key name : String)
      (v : StickyValues Json) (w : World U)
      → Slots.load_callbacks w.slots slot ≡ some c
      → (heap c).save ≡ some save
      → parse_quiet (memory p n) ≡ some args
      → find args "key" ≡ some (api.of_string key)
      → find args "config_name" ≡ some (api.of_string name)
      → find args "data" ≡ some (sticky_to_json api v)
      → IsStorable api laws v
      → dispatch_save api heap faults memory slot (some p) n w
        ≡ try_catch (save key name v) (report tt) (emit (freed p) w)
  unfolding dispatch_save
  dispatch_save_passes slot c p n args save key name v w held has parsed hk hn hd storable =
      rw
        (
          callbacks_held faults slot c w lock held,
          has,
          args_consumed faults memory p n w alloc,
          parsed,
          save_args_passes args save key name v (emit (freed p) w) hk hn hd storable,
        )
        refl

  delete_args_passes :
      (args : Json) (delete_value : String → String → Exec (World U) (Unit {0})) (key name : String)
      (w : World U)
      → find args "key" ≡ some (api.of_string key)
      → find args "config_name" ≡ some (api.of_string name)
      → delete_args api delete_value (some args) w ≡ delete_value key name w
  unfolding delete_args
  delete_args_passes args delete_value key name w has_key has_name =
      rw
        (
          lacks_string_found api laws args "key" key has_key,
          lacks_string_found api laws args "config_name" name has_name,
          laws.index_found args "key" _ has_key,
          laws.get_string-of_string key,
          laws.index_found args "config_name" _ has_name,
          laws.get_string-of_string name,
        )
        refl

  -- The same for a deletion of a key and a config name.
  pub dispatch_delete_passes :
      (slot c p n : ℕ) (args : Json) (delete_value : String → String → Exec (World U) (Unit {0}))
      (key name : String) (w : World U)
      → Slots.load_callbacks w.slots slot ≡ some c
      → (heap c).delete_value ≡ some delete_value
      → parse_quiet (memory p n) ≡ some args
      → find args "key" ≡ some (api.of_string key)
      → find args "config_name" ≡ some (api.of_string name)
      → dispatch_delete api heap faults memory slot (some p) n w
        ≡ try_catch (delete_value key name) (report tt) (emit (freed p) w)
  unfolding dispatch_delete
  dispatch_delete_passes slot c p n args delete_value key name w held has parsed hk hn =
      rw
        (
          callbacks_held faults slot c w lock held,
          has,
          args_consumed faults memory p n w alloc,
          parsed,
          delete_args_passes args delete_value key name (emit (freed p) w) hk hn,
        )
        refl

  -- What is no set of arguments for a save: text that is no JSON, or JSON that lacks a string "key",
  -- a string "config_name" or an object "data".
  abbrev pub NoSave : Option Json → Type 0
  NoSave none = Unit
  NoSave (some args) = ¬ (
      HasString api laws args "key"
      × HasString api laws args "config_name"
      × HasObject api laws args "data")

  save_args_ignores :
      (o : Option Json) (save : String → String → StickyValues Json → Exec (World U) (Unit {0}))
      (w : World U)
      → NoSave o
      → save_args api save o w ≡ (ok tt, w)
  unfolding save_args
  save_args_ignores none save w h = refl
  save_args_ignores (some args) save w h = elim (Bool-cases (lacks_string api args "key")) [
    | inl k ↦ rw k refl
    | inr k ↦ elim (Bool-cases (lacks_string api args "config_name")) [
      | inl n ↦ rw (k, n) refl
      | inr n ↦ elim (Bool-cases (lacks_object api args "data")) [
        | inl d ↦ rw (k, n, d) refl
        | inr d ↦ absurd (
            h (
              HasString_of_lacks api laws args "key" k,
              HasString_of_lacks api laws args "config_name" n,
              HasObject_of_lacks api laws args "data" d,
            ))
      ]
    ]
  ]

  -- If the lock and the copy do not fail and the slot has a save callback, then on arguments that
  -- do not parse, or that lack a string key, a string config_name or an object data, dispatch_save
  -- calls no callback: it frees the arguments, and that is all.
  pub dispatch_save_ignores :
      (slot c p n : ℕ) (save : String → String → StickyValues Json → Exec (World U) (Unit {0}))
      (w : World U)
      → Slots.load_callbacks w.slots slot ≡ some c
      → (heap c).save ≡ some save
      → NoSave (parse_quiet (memory p n))
      → dispatch_save api heap faults memory slot (some p) n w ≡ (ok tt, emit (freed p) w)
  unfolding dispatch_save
  dispatch_save_ignores slot c p n save w held has h =
      rw
        (
          callbacks_held faults slot c w lock held,
          has,
          args_consumed faults memory p n w alloc,
          save_args_ignores (parse_quiet (memory p n)) save (emit (freed p) w) h,
        )
        refl
