-- ===== src/Storage/Dispatch/Noexcept.antt =====
-- No exception leaves the functions that the native side calls.
use statsig_cpp_core.Prelude.{ℕ, String, ◌≡◌, refl, Option, none, Result, ok, throw}
use statsig_cpp_core.Prelude.Effects.{Exec, try_catch}
use statsig_cpp_core.Json.{JsonApi}
use statsig_cpp_core.Host.{World, Faults, report}
use statsig_cpp_core.Storage.Dispatch.{
  PersistentStorageCallbacks, load_body, save_body, delete_body, dispatch_load, dispatch_save,
  dispatch_delete,
}

module _ (api : JsonApi) {U : Type 0} (heap : ℕ → PersistentStorageCallbacks api.Json U)
    (faults : Faults) (memory : ℕ → ℕ → String) where
  -- The call returns a value, in some state.
  abbrev pub Returns : {A : Type 0} → Result A × World U → Type 0
  Returns {A} r = (a : A) × (r.0 ≡ ok a)

  try_catch-Returns :
      {A : Type 0} (a : A) (r : Result A × World U) (m : Exec (World U) A) (w : World U)
      → m w ≡ r
      → Returns (try_catch m (report a) w)
  try_catch-Returns a (ok b, w') m w e = (b, rw e refl)
  try_catch-Returns a (throw x, w') m w e = (a, rw e refl)

  -- Whatever the pool, the callbacks, the arguments and the faults of the lock and of the
  -- allocation are, dispatch_load, dispatch_save and dispatch_delete return: no exception unwinds
  -- into the native caller.
  pub dispatch_noexcept :
      (slot : ℕ) (args_ptr : Option ℕ) (args_length : ℕ) (w : World U)
      → Returns (dispatch_load api heap faults memory slot args_ptr args_length w)
        × Returns (dispatch_save api heap faults memory slot args_ptr args_length w)
        × Returns (dispatch_delete api heap faults memory slot args_ptr args_length w)
  unfolding dispatch_load dispatch_save dispatch_delete
  dispatch_noexcept slot args_ptr args_length w = (
    try_catch-Returns none _ (load_body api heap faults memory slot args_ptr args_length) w refl,
    try_catch-Returns tt _ (save_body api heap faults memory slot args_ptr args_length) w refl,
    try_catch-Returns tt _ (delete_body api heap faults memory slot args_ptr args_length) w refl,
  )
