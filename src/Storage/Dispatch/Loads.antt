-- ===== src/Storage/Dispatch/Loads.antt =====
-- What a load gets back from the callback: the text of the values, or null.
use statsig_cpp_core.Prelude.{ℕ, String, ◌≡◌, refl, false, Option, none, some, ok, str_eq}
use statsig_cpp_core.Prelude.Effects.{Exec}
use statsig_cpp_core.Json.{JsonApi}
use statsig_cpp_core.Sticky.{UserPersistedValues, persisted_to_json}
use statsig_cpp_core.Slots
use statsig_cpp_core.Host.{World, Faults, emit, freed}
use statsig_cpp_core.Host.Held.{callbacks_held, args_consumed}
use statsig_cpp_core.Storage.Dispatch.{PersistentStorageCallbacks, store_result, dispatch_load}

module _ (api : JsonApi) {U : Type 0} (heap : ℕ → PersistentStorageCallbacks api.Json U)
    (faults : Faults) (memory : ℕ → ℕ → String) (lock : faults.lock ≡ none)
    (alloc : faults.alloc ≡ none) where
  open api use {Json, dump, parse_quiet, contains, index, get_string, find}

  -- If the lock and the copy do not fail, a load of a non-empty key whose callback returns values
  -- that can be written hands the native side their text, and the buffer holds that text, also
  -- when the callback has written the buffer itself.
  pub dispatch_load_returns :
      (slot c p n : ℕ) (load : String → Exec (World U) (Option (UserPersistedValues Json)))
      (values : UserPersistedValues Json) (text : String) (w w' : World U)
      → Slots.load_callbacks w.slots slot ≡ some c
      → (heap c).load ≡ some load
      → str_eq (memory p n) "" ≡ false
      → load (memory p n) (emit (freed p) w) ≡ (ok (some values), w')
      → dump (persisted_to_json api values) ≡ ok text
      → dispatch_load api heap faults memory slot (some p) n w
        ≡ (ok (some text), record w' { buffer = text })
  unfolding dispatch_load store_result
  dispatch_load_returns slot c p n load values text w w' held has nonempty returns dumped =
      rw
        (
          callbacks_held faults slot c w lock held,
          has,
          args_consumed faults memory p n w alloc,
          nonempty,
          returns,
          dumped,
        )
        refl

  -- A load whose callback finds nothing gives null.
  pub dispatch_load_finds_none :
      (slot c p n : ℕ) (load : String → Exec (World U) (Option (UserPersistedValues Json)))
      (w w' : World U)
      → Slots.load_callbacks w.slots slot ≡ some c
      → (heap c).load ≡ some load
      → str_eq (memory p n) "" ≡ false
      → load (memory p n) (emit (freed p) w) ≡ (ok none, w')
      → dispatch_load api heap faults memory slot (some p) n w ≡ (ok none, w')
  unfolding dispatch_load store_result
  dispatch_load_finds_none slot c p n load w w' held has nonempty returns =
      rw
        (
          callbacks_held faults slot c w lock held,
          has,
          args_consumed faults memory p n w alloc,
          nonempty,
          returns,
        )
        refl
