-- ===== src/Tests/Calls.antt =====
-- The functions that the native side calls, on concrete slots, arguments and callbacks.
use statsig_cpp_core.Prelude.{
  ℕ, String, ◌≡◌, refl, Option, none, some, [], ◌∷◌, Dict, ok, throw, json_exception, non_std,
  subst, some-injective,
}
use statsig_cpp_core.Prelude.Effects.{Exec, pure, raise, try_catch}
use statsig_cpp_core.Json.{JsonApi, JsonLaws}
use statsig_cpp_core.Json.Tree.{Tree, string, tree_api}
use statsig_cpp_core.Json.Tree.Laws.{tree_laws}
use statsig_cpp_core.Sticky.{
  StickyValues, UserPersistedValues, default_sticky_values, sticky_to_json,
}
use statsig_cpp_core.Sticky.RoundTrip.{IsStorable}
use statsig_cpp_core.Slots
use statsig_cpp_core.Host.{World, no_faults, emit, freed, report}
use statsig_cpp_core.Host.Frees.{Keeps, FreesOnce, Keeps-pure, Keeps-lift}
use statsig_cpp_core.Storage.Dispatch.{
  PersistentStorageCallbacks, dispatch_load, dispatch_save, dispatch_delete,
}
use statsig_cpp_core.Storage.Dispatch.Noexcept.{Returns as StorageReturns, dispatch_noexcept}
use statsig_cpp_core.Storage.Dispatch.Calls.{dispatch_save_passes, dispatch_save_ignores}
use statsig_cpp_core.Storage.Dispatch.Ownership.{
  LeavesAlone as StorageLeavesAlone, dispatch_frees_args,
}
use statsig_cpp_core.Observer.Dispatch.{
  ObservabilityClientCallbacks, MetricKind, metric_fn, dispatch_init, dispatch_metric,
  dispatch_error, dispatch_should_enable,
}
use statsig_cpp_core.Observer.Dispatch.Unwinding.{Returns, observer_noexcept}
use statsig_cpp_core.Observer.Dispatch.Ownership.{LeavesAlone, observer_frees_args}

abbrev pub U : Type 0
U = Unit {0}

abbrev pub values : StickyValues Tree
values = default_sticky_values Tree

-- No text is JSON, and any value is written as "{}".
abbrev pub no_parse : JsonApi
no_parse = tree_api (λ s. throw json_exception) (λ t. ok "{}")

abbrev pub args : Tree
args = no_parse.of_object (
    ("key", string "u:userID")
    ∷ ("config_name", string "exp")
    ∷ ("data", sticky_to_json no_parse values)
    ∷ [])

-- Any text is read as the arguments of a save.
abbrev pub api : JsonApi
api = tree_api (λ s. ok args) (λ t. ok "{}")

abbrev pub laws : JsonLaws api
laws = tree_laws (λ s. ok args) (λ t. ok "{}")

abbrev no_parse_laws : JsonLaws no_parse
no_parse_laws = tree_laws (λ s. throw json_exception) (λ t. ok "{}")

abbrev pub memory : ℕ → ℕ → String
memory p n = "u:userID"

abbrev pub load : String → Exec (World U) (Option (UserPersistedValues Tree))
load key = pure (some (("exp", values) ∷ []))

abbrev pub save : String → String → StickyValues Tree → Exec (World U) U
save key name v = pure tt

abbrev pub heap : ℕ → PersistentStorageCallbacks Tree U
heap c = record {
  load = some load;
  save = some save;
  delete_value = some (λ key name. raise non_std);
}

-- The callbacks at 7 are in slot 1.
abbrev pub world : World U
world = record { slots = none ∷ some 7 ∷ []; events = []; buffer = ""; user = tt }

pub held : Slots.load_callbacks world.slots 1 ≡ some 7
unfolding Slots.load_callbacks
held = refl

dispatch_noexcept_example :
    StorageReturns api heap no_faults memory
      (dispatch_load api heap no_faults memory 1 (some 40) 8 world)
    × StorageReturns api heap no_faults memory
        (dispatch_save api heap no_faults memory 1 (some 40) 8 world)
    × StorageReturns api heap no_faults memory
        (dispatch_delete api heap no_faults memory 1 (some 40) 8 world)
dispatch_noexcept_example = dispatch_noexcept api heap no_faults memory 1 (some 40) 8 world

pub data_found : api.find args "data" ≡ some (sticky_to_json api values)
unfolding sticky_to_json
data_found = refl

pub values-IsStorable : IsStorable api laws values
values-IsStorable = record { no_null = λ j e. cc; time = λ n e. cc; version = λ n e. cc }

dispatch_save_passes_example :
    dispatch_save api heap no_faults memory 1 (some 40) 8 world
    ≡ try_catch (save "u:userID" "exp" values) (report tt) (emit (freed 40) world)
dispatch_save_passes_example =
    dispatch_save_passes api laws heap no_faults memory refl refl 1 7 40 8 args save "u:userID"
      "exp" values world held refl refl refl refl data_found values-IsStorable

dispatch_save_ignores_example :
    dispatch_save no_parse heap no_faults memory 1 (some 40) 8 world
    ≡ (ok tt, emit (freed 40) world)
dispatch_save_ignores_example =
    dispatch_save_ignores no_parse no_parse_laws heap no_faults memory refl refl 1 7 40 8 save world
      held refl tt

heap-LeavesAlone : (c : ℕ) → StorageLeavesAlone api 40 (heap c)
heap-LeavesAlone c = record {
  load = λ f e key. subst (λ g. Keeps 40 (g key)) (some-injective load f e) (Keeps-pure 40 _);
  save = λ f e key name v.
      subst (λ g. Keeps 40 (g key name v)) (some-injective save f e) (Keeps-pure 40 tt);
  delete_value = λ f e key name.
      subst (λ g. Keeps 40 (g key name)) (some-injective (λ k n. raise non_std) f e)
        (Keeps-lift 40 (throw non_std));
}

dispatch_frees_args_example :
    FreesOnce 40 (dispatch_load api heap no_faults memory 1 (some 40) 8)
    × FreesOnce 40 (dispatch_save api heap no_faults memory 1 (some 40) 8)
    × FreesOnce 40 (dispatch_delete api heap no_faults memory 1 (some 40) 8)
dispatch_frees_args_example =
    dispatch_frees_args api heap no_faults memory 40 heap-LeavesAlone refl refl 1 8

abbrev pub count_metric : String → ℕ → Dict String → Exec (World U) U
count_metric name amount tags = pure tt

-- Callbacks that throw what is no `std::exception`, but for the metrics.
abbrev pub clients : ℕ → ObservabilityClientCallbacks ℕ U
clients c = record {
  init = some (raise non_std);
  increment = some count_metric;
  gauge = some count_metric;
  dist = none;
  error = some (λ tag error. raise non_std);
  should_enable = none;
}

observer_noexcept_example :
    Returns (dispatch_init api clients no_faults memory 1 world)
    × Returns (dispatch_metric api clients no_faults memory 1 (some 40) 8 MetricKind.gauge world)
    × Returns (dispatch_error api clients no_faults memory 1 (some 40) 8 world)
    × Returns (dispatch_should_enable api clients no_faults memory 1 (some 40) 8 world)
observer_noexcept_example =
    observer_noexcept api clients memory no_faults refl refl 1 (some 40) 8 MetricKind.gauge world

metric-Keeps :
    (kind : MetricKind) (f : String → ℕ → Dict String → Exec (World U) U)
    → metric_fn kind (clients 7) ≡ some f
    → (name : String) (amount : ℕ) (tags : Dict String) → Keeps 40 (f name amount tags)
metric-Keeps MetricKind.increment f e name amount tags =
    subst (λ g. Keeps 40 (g name amount tags)) (some-injective count_metric f e) (Keeps-pure 40 tt)
metric-Keeps MetricKind.gauge f e name amount tags =
    subst (λ g. Keeps 40 (g name amount tags)) (some-injective count_metric f e) (Keeps-pure 40 tt)
metric-Keeps MetricKind.dist f e name amount tags = cc

clients-LeaveAlone : (c : ℕ) → LeavesAlone api 40 (clients c)
clients-LeaveAlone c = record {
  metric = metric-Keeps;
  error = λ f e tag error.
      subst (λ g. Keeps 40 (g tag error)) (some-injective (λ t x. raise non_std) f e)
        (Keeps-lift 40 (throw non_std));
  should_enable = λ f e tag. cc;
}

observer_frees_args_example :
    FreesOnce 40 (dispatch_metric api clients no_faults memory 1 (some 40) 8 MetricKind.gauge)
    × FreesOnce 40 (dispatch_error api clients no_faults memory 1 (some 40) 8)
    × FreesOnce 40 (dispatch_should_enable api clients no_faults memory 1 (some 40) 8)
observer_frees_args_example =
    observer_frees_args api clients no_faults memory 40 clients-LeaveAlone refl refl 1 8
      MetricKind.gauge
