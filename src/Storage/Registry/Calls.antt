-- ===== src/Storage/Registry/Calls.antt =====
-- From the options to the callbacks: what the native side reads in the options of the SDK, what it
-- has registered for it, and what the functions there run.
use statsig_cpp_core.Prelude.{
  ℕ, ◌<◌, ◌^◌, String, ◌≡◌, ◌≢◌, refl, none, some, ok, get_elem?-lt, arith,
}
use statsig_cpp_core.Prelude.Results.{◌>>=◌}
use statsig_cpp_core.Json.{JsonApi, JsonLaws}
use statsig_cpp_core.Sticky.{get_opt}
use statsig_cpp_core.Slots.{load_callbacks}
use statsig_cpp_core.Host.{Faults}
use statsig_cpp_core.Options.{
  StatsigOptionsBuilder, set_persistent_storage, options_to_json, build_options,
}
use statsig_cpp_core.Options.Encode.{options_carry_storage}
use statsig_cpp_core.Storage.Tables.{Functions, functions}
use statsig_cpp_core.Storage.Dispatch.{PersistentStorageCallbacks}
use statsig_cpp_core.Storage.Dispatch.Trampolines.{FunctionsRun, held-FunctionsRun}
use statsig_cpp_core.Storage.Registry.{Object, Registry, Reach}
use statsig_cpp_core.Storage.Registry.Reached.{IsStart, reached-IsConsistent}

module _ (api : JsonApi) (laws : JsonLaws api) {U : Type 0}
    (heap : ℕ → PersistentStorageCallbacks api.Json U) (faults : Faults)
    (memory : ℕ → ℕ → String) where
  -- If the lock does not fail, the native side gives no ref that it still has, and the options are
  -- written as a text that parses to what was written, then at each moment of any interleaving of
  -- constructions and destructions of storages, for a storage whose ref is not 0 and is below 2^64
  -- and which is set in the options: build hands this text to the native library, which reads the
  -- storage's ref in it; and it has for the ref, as the parameters for load, save and delete,
  -- entries of the tables that are functions which run this storage's load, save and delete
  -- callbacks.
  pub options_reach_callbacks :
      (p q : Registry U) (i : ℕ) (o : Object) (b : StatsigOptionsBuilder) (create : String → ℕ)
      (text : String)
      → faults.lock ≡ none
      → IsStart p
      → Reach p q
      → q.objects i ≡ some o
      → o.storage.ref ≢ 0
      → o.storage.ref < 2 ^ 64
      → api.dump (options_to_json api (set_persistent_storage o.storage.ref b)) ≡ ok text
      → api.parse text ≡ ok (options_to_json api (set_persistent_storage o.storage.ref b))
      → (build_options api create (set_persistent_storage o.storage.ref b) ≡ ok (create text))
        × ((api.parse text >>= λ j. get_opt api api.get_uint64 j "persistent_storage_ref")
            ≡ ok (some o.storage.ref))
        × ((fs : Functions) × (q.entries o.storage.ref ≡ some fs)
            × FunctionsRun api heap faults memory q.world.slots fs o.storage)
  unfolding load_callbacks build_options
  options_reach_callbacks p q i o b create text lock begin way e n range dumped parsed =
      let v = reached-IsConsistent p q begin way in
      let (k, at, there) = v.enrolled i o e n in
      let held = v.owns i k o e at in
      (
        rw dumped refl,
        rw parsed (options_carry_storage api laws o.storage.ref b n range),
        (
          functions k,
          there,
          held-FunctionsRun api heap faults memory q.world.slots k o.storage lock
              (omega (arith, get_elem?-lt q.world.slots k _ held, v.size)) (rw held refl),
        ),
      )
