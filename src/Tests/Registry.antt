-- ===== src/Tests/Registry.antt =====
-- A storage that is constructed in steps, its registration, and the way from the options to it.
use statsig_cpp_core.Prelude.{
  String, [], ◌∷◌, ℕ, ◌<◌, ◌≡◌, ◌↔◌, refl, none, some, ok, length, arith,
}
use statsig_cpp_core.Json.{pos}
use statsig_cpp_core.Sticky.{get_opt}
use statsig_cpp_core.Slots.{max_slots, load_callbacks, claim_slot, claim_loop}
use statsig_cpp_core.Host.{no_faults}
use statsig_cpp_core.Options.{
  StatsigOptionsBuilder, default_options, set_persistent_storage, options_to_json, base_to_json,
  flatten_adapter, build_options,
}
use statsig_cpp_core.Prelude.Results.{◌>>=◌}
use statsig_cpp_core.Json.{JsonApi, JsonLaws}
use statsig_cpp_core.Json.Tree.{tree_api}
use statsig_cpp_core.Json.Tree.Laws.{tree_laws}
use statsig_cpp_core.Storage.Tables.{Functions, functions}
use statsig_cpp_core.Storage.Registry.Pending
use statsig_cpp_core.Storage.Registry.Pending.{Traffic, IsQuiet, calls_find_own}
use statsig_cpp_core.Storage.Dispatch.Trampolines.{
  load_table, save_table, delete_table, FunctionsRun,
}
use statsig_cpp_core.Storage.Registry.{
  Phase, Object, Registry, new_storage, claim, enroll, Reach, here, next, claims, enrolls,
}
use statsig_cpp_core.Storage.Registry.Reached.{Serves, entries_exact}
use statsig_cpp_core.Storage.Registry.Calls.{options_reach_callbacks}
use statsig_cpp_core.Storage.Registry.Bounds.{slots_in_range}
use statsig_cpp_core.Tests.Pool.{empty_world}
use statsig_cpp_core.Tests.Calls.{U, api, heap, memory}

abbrev nothing : Registry U
nothing = record { world = empty_world; objects = λ i. none; entries = λ ref. none }

-- Thread 2 constructs a storage, and the native side answers 5.
abbrev claimed_one : Registry U
claimed_one = claim 2 7 nothing

is_claimed :
    claimed_one.objects 2 ≡ some (record { storage = new_storage 7 (pos 0); phase = Phase.claimed })
unfolding claim claim_slot claim_loop
is_claimed = refl

none_yet : claimed_one.entries 5 ≡ none
unfolding claim
none_yet = refl

abbrev enrolled_one : Registry U
enrolled_one = enroll 2 (new_storage 7 (pos 0)) 5 (pos 0) claimed_one

abbrev one_object : Object
one_object = record {
  storage = record { callbacks = 7; ref = 5; slot = pos 0 };
  phase = Phase.alive;
}

is_enrolled : enrolled_one.objects 2 ≡ some one_object
unfolding enroll
is_enrolled = refl

enrolled_reached : Reach nothing enrolled_one
enrolled_reached =
    next (next here (claims 2 7 refl)) (enrolls 2 5 (new_storage 7 (pos 0)) is_claimed none_yet)

entries_exact_example : (enrolled_one.entries 5 ≡ some (functions 0)) ↔ Serves enrolled_one 5 0
entries_exact_example =
    entries_exact nothing enrolled_one 5 0 (refl, λ i. refl, λ ref. refl) enrolled_reached

-- A library that reads every text as these options, and writes every value as "{}".
abbrev some_options : StatsigOptionsBuilder
some_options = set_persistent_storage 5 default_options

abbrev text_api : JsonApi
text_api = tree_api (λ s. ok (options_to_json api some_options)) (λ t. ok "{}")

abbrev text_laws : JsonLaws text_api
text_laws = tree_laws (λ s. ok (options_to_json api some_options)) (λ t. ok "{}")

is_read : text_api.parse "{}" ≡ ok (options_to_json text_api some_options)
unfolding options_to_json base_to_json flatten_adapter set_persistent_storage
is_read = refl

abbrev options_ref : String → ℕ
options_ref text = 12

options_reach_callbacks_example :
    (build_options text_api options_ref some_options ≡ ok 12)
    × ((text_api.parse "{}" >>= λ j.
          get_opt text_api text_api.get_uint64 j "persistent_storage_ref")
        ≡ ok (some 5))
    × ((fs : Functions) × (enrolled_one.entries 5 ≡ some fs)
        × FunctionsRun text_api heap no_faults memory enrolled_one.world.slots fs
            one_object.storage)
options_reach_callbacks_example =
    options_reach_callbacks text_api text_laws heap no_faults memory nothing enrolled_one 2
      one_object default_options options_ref "{}" refl (refl, λ i. refl, λ ref. refl)
      enrolled_reached is_enrolled (λ e. absurd (omega (arith, e))) (omega arith) refl is_read

abbrev no_call : Traffic U
no_call = record { registry = nothing; pending = [] }

abbrev one_call : Traffic U
one_call = record { registry = enrolled_one; pending = record { ref = 5; slot = 0 } ∷ [] }

is_entered : enrolled_one.entries 5 ≡ some (functions 0)
unfolding enroll
is_entered = refl

call_reached : Pending.Reach IsQuiet no_call one_call
call_reached =
    Pending.next
      (Pending.next (Pending.next Pending.here (Pending.acts (claims 2 7 refl) tt))
        (Pending.acts (enrolls 2 5 (new_storage 7 (pos 0)) is_claimed none_yet) tt))
      (Pending.looks_up 5 0 is_entered)

calls_find_own_example :
    (j : ℕ) × (o : Object) × (enrolled_one.objects j ≡ some o)
    × (o.storage.ref ≡ 5)
    × (load_callbacks enrolled_one.world.slots 0 ≡ some o.storage.callbacks)
calls_find_own_example =
    calls_find_own no_call one_call 0 (record { ref = 5; slot = 0 })
      ((refl, λ i. refl, λ ref. refl), refl) call_reached refl

slots_in_range_example :
    (length enrolled_one.world.slots ≡ max_slots)
    × (length (load_table api heap no_faults memory) ≡ max_slots)
    × (length (save_table api heap no_faults memory) ≡ max_slots)
    × (length (delete_table api heap no_faults memory) ≡ max_slots)
    × ((i k : ℕ) (o : Object)
        → enrolled_one.objects i ≡ some o
        → o.storage.slot ≡ pos k
        → k < max_slots)
    × ((ref : ℕ) (fs : Functions)
        → enrolled_one.entries ref ≡ some fs
        → (k : ℕ) × (fs ≡ functions k) × (k < max_slots))
slots_in_range_example =
    slots_in_range api heap no_faults memory nothing enrolled_one (refl, λ i. refl, λ ref. refl)
      enrolled_reached
