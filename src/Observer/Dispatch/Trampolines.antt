-- ===== src/Observer/Dispatch/Trampolines.antt =====
-- src/observability_client.cpp: the functions of a slot, the tables of them, and the functions that
-- the constructor hands to the native side.
use statsig_cpp_core.Prelude.{ℕ, String, Bool, Option, none, List, map, get_elem?, range_from}
use statsig_cpp_core.Prelude.Effects.{Exec}
use statsig_cpp_core.Json.{JsonApi}
use statsig_cpp_core.Slots
use statsig_cpp_core.Observer.Tables.{
  TableEntry, init_entry, increment_entry, gauge_entry, dist_entry, error_entry,
  should_enable_entry, Functions,
}
use statsig_cpp_core.Observer.Pool.{max_slots}
use statsig_cpp_core.Host.{World, Faults}
use statsig_cpp_core.Observer.Dispatch.{
  ObservabilityClientCallbacks, MetricKind, dispatch_init, dispatch_metric, dispatch_error,
  dispatch_should_enable,
}

-- `InitFn`, `ArgFn` and `BoolFn`
abbrev pub InitFn : Type 0 → Type 0
InitFn U = Exec (World U) (Unit {0})

abbrev pub ArgFn : Type 0 → Type 0
ArgFn U = Option ℕ → ℕ → Exec (World U) (Unit {0})

abbrev pub BoolFn : Type 0 → Type 0
BoolFn U = Option ℕ → ℕ → Exec (World U) Bool

module _ (api : JsonApi) {U : Type 0} (heap : ℕ → ObservabilityClientCallbacks api.Double U)
    (faults : Faults) (memory : ℕ → ℕ → String) where
  -- `Trampoline<Slot>`: `increment`, `gauge` and `dist` are `trampoline_metric` of the kind.
  pub trampoline_init : ℕ → InitFn U
  trampoline_init slot = dispatch_init api heap faults memory slot

  pub trampoline_metric : MetricKind → ℕ → ArgFn U
  trampoline_metric kind slot p len = dispatch_metric api heap faults memory slot p len kind

  pub trampoline_error : ℕ → ArgFn U
  trampoline_error slot p len = dispatch_error api heap faults memory slot p len

  pub trampoline_should_enable : ℕ → BoolFn U
  trampoline_should_enable slot p len = dispatch_should_enable api heap faults memory slot p len

  -- The argument is the list of the numbers of the index sequence.
  make_init_table : List ℕ → List (InitFn U)
  unfolding trampoline_init
  make_init_table indices = map trampoline_init indices

  make_metric_table : MetricKind → List ℕ → List (ArgFn U)
  unfolding trampoline_metric
  make_metric_table kind indices = map (trampoline_metric kind) indices

  make_error_table : List ℕ → List (ArgFn U)
  unfolding trampoline_error
  make_error_table indices = map trampoline_error indices

  make_should_enable_table : List ℕ → List (BoolFn U)
  unfolding trampoline_should_enable
  make_should_enable_table indices = map trampoline_should_enable indices

  pub init_table : List (InitFn U)
  unfolding make_init_table
  init_table = make_init_table (range_from 0 max_slots)

  -- `kIncrementTable`, `kGaugeTable` and `kDistTable`
  pub metric_table : MetricKind → List (ArgFn U)
  unfolding make_metric_table
  metric_table kind = make_metric_table kind (range_from 0 max_slots)

  pub error_table : List (ArgFn U)
  unfolding make_error_table
  error_table = make_error_table (range_from 0 max_slots)

  pub should_enable_table : List (BoolFn U)
  unfolding make_should_enable_table
  should_enable_table = make_should_enable_table (range_from 0 max_slots)

  -- The function that an entry is, as a parameter of each of the three types.
  abbrev pub init_function : TableEntry → Option (InitFn U)
  init_function (init_entry s) = get_elem? init_table s
  init_function (increment_entry s) = none
  init_function (gauge_entry s) = none
  init_function (dist_entry s) = none
  init_function (error_entry s) = none
  init_function (should_enable_entry s) = none

  abbrev pub arg_function : TableEntry → Option (ArgFn U)
  arg_function (init_entry s) = none
  arg_function (increment_entry s) = get_elem? (metric_table MetricKind.increment) s
  arg_function (gauge_entry s) = get_elem? (metric_table MetricKind.gauge) s
  arg_function (dist_entry s) = get_elem? (metric_table MetricKind.dist) s
  arg_function (error_entry s) = get_elem? error_table s
  arg_function (should_enable_entry s) = none

  abbrev pub bool_function : TableEntry → Option (BoolFn U)
  bool_function (init_entry s) = none
  bool_function (increment_entry s) = none
  bool_function (gauge_entry s) = none
  bool_function (dist_entry s) = none
  bool_function (error_entry s) = none
  bool_function (should_enable_entry s) = get_elem? should_enable_table s

  -- The parameter for a kind of metric.
  abbrev pub metric_parameter : MetricKind → Functions → TableEntry
  metric_parameter MetricKind.increment fs = fs.increment
  metric_parameter MetricKind.gauge fs = fs.gauge
  metric_parameter MetricKind.dist fs = fs.dist
