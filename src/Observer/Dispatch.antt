-- ===== src/Observer/Dispatch.antt =====
-- src/observability_client.cpp: the functions that the native side calls. `heap`, `memory` and
-- `faults` are as for the storage.
pub mod Ownership
pub mod Unwinding
pub mod Trampolines
pub mod Calls
use statsig_cpp_core.Prelude.{ℕ, String, Bool, false, Option, none, some, Dict}
use statsig_cpp_core.Prelude.Effects.{Exec, ◌>>=◌, ◌>>◌, pure, lift, try_catch}
use statsig_cpp_core.Json.{JsonApi}
use statsig_cpp_core.Host.{World, Faults, member, report}
use statsig_cpp_core.Observer.Pool.{load_callbacks, free_args, consume_args}
use statsig_cpp_core.Observer.Tags.{parse_tags}

pub record ObservabilityClientCallbacks (D U : Type 0) : Type 0 where
  pub init : Option (Exec (World U) (Unit {0}))
  pub increment : Option (String → D → Dict String → Exec (World U) (Unit {0}))
  pub gauge : Option (String → D → Dict String → Exec (World U) (Unit {0}))
  pub dist : Option (String → D → Dict String → Exec (World U) (Unit {0}))
  pub error : Option (String → String → Exec (World U) (Unit {0}))
  pub should_enable : Option (String → Exec (World U) Bool)

pub data MetricKind : Type 0 where
  increment gauge dist : MetricKind

abbrev pub metric_fn :
    {D U : Type 0}
    → MetricKind
    → ObservabilityClientCallbacks D U
    → Option (String → D → Dict String → Exec (World U) (Unit {0}))
metric_fn MetricKind.increment cbs = cbs.increment
metric_fn MetricKind.gauge cbs = cbs.gauge
metric_fn MetricKind.dist cbs = cbs.dist

module _ (api : JsonApi) {U : Type 0} (heap : ℕ → ObservabilityClientCallbacks api.Double U)
    (faults : Faults) (memory : ℕ → ℕ → String) where
  open api use {Double, zero_double, parse, value, get_string, get_double}

  pub init_found : Option (Exec (World U) (Unit {0})) → Exec (World U) (Unit {0})
  init_found none = pure tt
  init_found (some init) = try_catch init (report tt)

  pub dispatch_init : ℕ → Exec (World U) (Unit {0})
  unfolding init_found
  dispatch_init slot = do
    cbs ← load_callbacks faults slot
    init_found (member heap (λ c. c.init) cbs)

  -- The part in the `try` block.
  metric_body :
      (String → Double → Dict String → Exec (World U) (Unit {0}))
      → String
      → Exec (World U) (Unit {0})
  metric_body f raw = do
    j ← lift (parse raw)
    metric ← lift (value get_string j "metric" "")
    amount ← lift (value get_double j "value" zero_double)
    tags ← lift (parse_tags api j)
    f metric amount tags

  pub metric_found :
      Option (String → Double → Dict String → Exec (World U) (Unit {0}))
      → Option ℕ
      → ℕ
      → Exec (World U) (Unit {0})
  metric_found none args_ptr args_length = free_args args_ptr
  metric_found (some f) args_ptr args_length = do
    raw ← consume_args faults memory args_ptr args_length
    try_catch (metric_body f raw) (report tt)

  pub dispatch_metric : ℕ → Option ℕ → ℕ → MetricKind → Exec (World U) (Unit {0})
  unfolding metric_found
  dispatch_metric slot args_ptr args_length kind = do
    cbs ← load_callbacks faults slot
    metric_found (member heap (metric_fn kind) cbs) args_ptr args_length

  error_body : (String → String → Exec (World U) (Unit {0})) → String → Exec (World U) (Unit {0})
  error_body f raw = do
    j ← lift (parse raw)
    tag ← lift (value get_string j "tag" "")
    error ← lift (value get_string j "error" "")
    f tag error

  pub error_found :
      Option (String → String → Exec (World U) (Unit {0}))
      → Option ℕ
      → ℕ
      → Exec (World U) (Unit {0})
  error_found none args_ptr args_length = free_args args_ptr
  error_found (some f) args_ptr args_length = do
    raw ← consume_args faults memory args_ptr args_length
    try_catch (error_body f raw) (report tt)

  pub dispatch_error : ℕ → Option ℕ → ℕ → Exec (World U) (Unit {0})
  unfolding error_found
  dispatch_error slot args_ptr args_length = do
    cbs ← load_callbacks faults slot
    error_found (member heap (λ c. c.error) cbs) args_ptr args_length

  pub enable_found : Option (String → Exec (World U) Bool) → Option ℕ → ℕ → Exec (World U) Bool
  enable_found none args_ptr args_length = do free_args args_ptr; pure false
  enable_found (some f) args_ptr args_length = do
    tag ← consume_args faults memory args_ptr args_length
    try_catch (f tag) (report false)

  pub dispatch_should_enable : ℕ → Option ℕ → ℕ → Exec (World U) Bool
  unfolding enable_found
  dispatch_should_enable slot args_ptr args_length = do
    cbs ← load_callbacks faults slot
    enable_found (member heap (λ c. c.should_enable) cbs) args_ptr args_length
