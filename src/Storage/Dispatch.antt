-- ===== src/Storage/Dispatch.antt =====
-- src/persistent_storage.cpp: the functions that the native side calls. `heap` gives the callbacks
-- at an address, `memory` the text of a number of bytes at an address, and `faults` what fails in
-- the lock and in the copy of the arguments. A callback may change the whole state: it may build or
-- destroy storages, call back into the wrapper, and throw.
pub mod Args
pub mod Noexcept
pub mod Calls
pub mod Loads
pub mod Requests
pub mod Ownership
pub mod Trampolines
use statsig_cpp_core.Prelude.{
  ℕ, String, Bool, true, false, not, ◌||◌, Option, none, some, Exn, Result, ok, str_eq,
  if◌then◌else◌,
}
use statsig_cpp_core.Prelude.Effects.{Exec, ◌>>=◌, ◌>>◌, pure, lift, modify, try_catch}
use statsig_cpp_core.Json.{JsonApi, is_string, is_object}
use statsig_cpp_core.Sticky.{StickyValues, UserPersistedValues, sticky_from_json, persisted_to_json}
use statsig_cpp_core.Host.{
  World, Faults, emit, callback_failed, load_callbacks, free_args, consume_args, member, report,
}

pub record PersistentStorageCallbacks (J U : Type 0) : Type 0 where
  pub load : Option (String → Exec (World U) (Option (UserPersistedValues J)))
  pub save : Option (String → String → StickyValues J → Exec (World U) (Unit {0}))
  pub delete_value : Option (String → String → Exec (World U) (Unit {0}))

module _ (api : JsonApi) where
  abbrev pub lacks_string : api.Json → String → Bool
  lacks_string args k = not (api.contains args k) || not (is_string api (api.index args k))

  abbrev pub lacks_object : api.Json → String → Bool
  lacks_object args k = not (api.contains args k) || not (is_object api (api.index args k))

module _ (api : JsonApi) {U : Type 0} where
  open api use {Json, dump, parse_quiet, contains, index, get_string}

  abbrev set_buffer : String → Exec (World U) (Option String)
  set_buffer text w = (ok (some text), record w { buffer = text })

  pub store_result : Option (UserPersistedValues Json) → Exec (World U) (Option String)
  store_result none = pure none
  store_result (some values) = do text ← lift (dump (persisted_to_json api values)); set_buffer text

  pub save_args :
      (String → String → StickyValues Json → Exec (World U) (Unit {0}))
      → Option Json
      → Exec (World U) (Unit {0})
  save_args save none = pure tt
  save_args save (some args) =
      if lacks_string api args "key"
        || lacks_string api args "config_name"
        || lacks_object api args "data"
      then pure tt
      else do
        key ← lift (get_string (index args "key"))
        config_name ← lift (get_string (index args "config_name"))
        values ← lift (sticky_from_json api (index args "data"))
        save key config_name values

  pub delete_args :
      (String → String → Exec (World U) (Unit {0})) → Option Json → Exec (World U) (Unit {0})
  delete_args delete_value none = pure tt
  delete_args delete_value (some args) =
      if lacks_string api args "key" || lacks_string api args "config_name" then pure tt else do
        key ← lift (get_string (index args "key"))
        config_name ← lift (get_string (index args "config_name"))
        delete_value key config_name

module _ (api : JsonApi) {U : Type 0} (heap : ℕ → PersistentStorageCallbacks api.Json U)
    (faults : Faults) (memory : ℕ → ℕ → String) where
  pub load_args :
      (String → Exec (World U) (Option (UserPersistedValues api.Json)))
      → Option ℕ
      → ℕ
      → Exec (World U) (Option String)
  load_args load args_ptr args_length = do
    key ← consume_args faults memory args_ptr args_length
    if str_eq key "" then pure none else (do result ← load key; store_result api result)

  pub load_found :
      Option (String → Exec (World U) (Option (UserPersistedValues api.Json)))
      → Option ℕ
      → ℕ
      → Exec (World U) (Option String)
  load_found none args_ptr args_length = do free_args args_ptr; pure none
  load_found (some load) args_ptr args_length = load_args load args_ptr args_length

  load_body : ℕ → Option ℕ → ℕ → Exec (World U) (Option String)
  load_body slot args_ptr args_length = do
    cbs ← load_callbacks faults slot
    load_found (member heap (λ c. c.load) cbs) args_ptr args_length

  -- The pointer returned is null, or that of the buffer, given by its text.
  pub dispatch_load : ℕ → Option ℕ → ℕ → Exec (World U) (Option String)
  unfolding load_body load_found load_args
  dispatch_load slot args_ptr args_length =
      try_catch (load_body slot args_ptr args_length) (report none)

  pub save_found :
      Option (String → String → StickyValues api.Json → Exec (World U) (Unit {0}))
      → Option ℕ
      → ℕ
      → Exec (World U) (Unit {0})
  save_found none args_ptr args_length = free_args args_ptr
  save_found (some save) args_ptr args_length = do
    raw ← consume_args faults memory args_ptr args_length
    save_args api save (api.parse_quiet raw)

  save_body : ℕ → Option ℕ → ℕ → Exec (World U) (Unit {0})
  save_body slot args_ptr args_length = do
    cbs ← load_callbacks faults slot
    save_found (member heap (λ c. c.save) cbs) args_ptr args_length

  -- The three arguments of the callback are read from left to right; C++ leaves the order open,
  -- and it shows only in which of several exceptions is reported.
  pub dispatch_save : ℕ → Option ℕ → ℕ → Exec (World U) (Unit {0})
  unfolding save_body save_found
  dispatch_save slot args_ptr args_length =
      try_catch (save_body slot args_ptr args_length) (report tt)

  pub delete_found :
      Option (String → String → Exec (World U) (Unit {0}))
      → Option ℕ
      → ℕ
      → Exec (World U) (Unit {0})
  delete_found none args_ptr args_length = free_args args_ptr
  delete_found (some delete_value) args_ptr args_length = do
    raw ← consume_args faults memory args_ptr args_length
    delete_args api delete_value (api.parse_quiet raw)

  delete_body : ℕ → Option ℕ → ℕ → Exec (World U) (Unit {0})
  delete_body slot args_ptr args_length = do
    cbs ← load_callbacks faults slot
    delete_found (member heap (λ c. c.delete_value) cbs) args_ptr args_length

  pub dispatch_delete : ℕ → Option ℕ → ℕ → Exec (World U) (Unit {0})
  unfolding delete_body delete_found
  dispatch_delete slot args_ptr args_length =
      try_catch (delete_body slot args_ptr args_length) (report tt)
