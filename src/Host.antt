-- ===== src/Host.antt =====
-- The state that the wrappers of src/persistent_storage.cpp and src/observability_client.cpp act
-- on, and their helpers for the arguments that the FFI hands over.
pub mod Frees
pub mod Held
use statsig_cpp_core.Prelude.{ℕ, String, Option, none, some, List, ◌∷◌, Exn, throw, ok}
use statsig_cpp_core.Prelude.Effects.{Exec, ◌>>◌, pure, modify}
use statsig_cpp_core.Slots

-- Calls of the native library, and lines on `std::cerr`.
pub data Event : Type 0 where
  -- `…_create` with the functions of a slot; `…_release` of a ref
  created released : ℕ → Event
  -- `free_string` of the string at an address
  freed : ℕ → Event
  -- "Exhausted … slots", "Failed to register …"
  exhausted not_registered : Event
  -- "… callback failed", with the exception
  callback_failed : Exn → Event

-- A shared pointer to callbacks is the address of the callbacks. `user` stands for all state that
-- the callbacks touch, the pool of the other wrapper included.
pub record World (U : Type 0) : Type 0 where
  pub slots : List (Option ℕ)
  -- newest first
  pub events : List Event
  -- the `thread_local` buffer of `dispatch_load`
  pub buffer : String
  pub user : U

-- What the environment lets fail: taking the mutex, and copying an argument (`std::bad_alloc`).
pub record Faults : Type 0 where
  pub lock : Option Exn
  pub alloc : Option Exn

abbrev pub no_faults : Faults
no_faults = record { lock = none; alloc = none }

abbrev pub may_throw {ℓ} : {W : Type ℓ} → Option Exn → Exec W (Unit {0})
may_throw none w = (ok tt, w)
may_throw (some e) w = (throw e, w)

module _ {U : Type 0} where
  abbrev pub emit : Event → World U → World U
  emit e w = record w { events = e ∷ w.events }

  module _ (faults : Faults) where
    unfoldable pub load_callbacks : ℕ → Exec (World U) (Option ℕ)
    load_callbacks slot = do may_throw faults.lock; λ w. (ok (Slots.load_callbacks w.slots slot), w)

  -- `none` is the null pointer.
  unfoldable pub free_args : Option ℕ → Exec (World U) (Unit {0})
  free_args none = pure tt
  free_args (some p) = modify (emit (freed p))

-- `memory p n` is the text of the `n` bytes at `p`.
module _ {U : Type 0} (faults : Faults) (memory : ℕ → ℕ → String) where
  unfoldable pub consume_args : Option ℕ → ℕ → Exec (World U) String
  consume_args none args_length = pure ""
  consume_args (some p) args_length = do
    may_throw faults.alloc
    free_args (some p)
    pure (memory p args_length)

-- A callback of a pointer, `none` if the pointer is null or the callback is unset.
abbrev pub member : {C F : Type 0} → (ℕ → C) → (C → Option F) → Option ℕ → Option F
member heap f none = none
member heap f (some c) = f (heap c)

-- `catch (…)`: a line on `std::cerr`, and a result in place of the exception.
abbrev pub report : {U A : Type 0} → A → Exn → Exec (World U) A
report a e = do modify (emit (callback_failed e)); pure a
