-- ===== src/Client/Calls.antt =====
-- The functions of src/statsig.cpp that pass a call on to the native library.
pub mod Callbacks
use statsig_cpp_core.Prelude.{ℕ, String, Option, none, some, Dict}
use statsig_cpp_core.Client.Native.{Native}
use statsig_cpp_core.Client.Events.{event_text}

module _ (n : Native) where
  open n use {State}

  -- An empty `std::function` is `none`.
  unfoldable pub initialize : ℕ → Option (State → State) → State → State
  initialize ref none = n.statsig_initialize ref none
  initialize ref (some callback) = n.statsig_initialize ref (some (λ s. s))

  unfoldable pub free_result : Option ℕ → State → State
  free_result none s = s
  free_result (some p) s = n.free_string p s

  unfoldable pub initialize_with_details : ℕ → Option (String → State → State) → State → State
  unfolding free_result
  initialize_with_details ref none = n.statsig_initialize_with_details ref none
  initialize_with_details ref (some callback) =
      n.statsig_initialize_with_details ref (some free_result)

  unfoldable pub initialize_blocking : ℕ → State → State
  initialize_blocking ref = n.statsig_initialize_blocking ref

  unfoldable pub shutdown : ℕ → Option (State → State) → State → State
  shutdown ref none = n.statsig_shutdown ref none
  shutdown ref (some callback) = n.statsig_shutdown ref (some (λ s. s))

  unfoldable pub shutdown_blocking : ℕ → State → State
  shutdown_blocking ref = n.statsig_shutdown_blocking ref

  unfoldable pub flush_events : ℕ → Option (State → State) → State → State
  flush_events ref none = n.statsig_flush_events ref none
  flush_events ref (some callback) = n.statsig_flush_events ref (some (λ s. s))

  unfoldable pub flush_events_blocking : ℕ → State → State
  flush_events_blocking ref = n.statsig_flush_events_blocking ref

  unfoldable pub log_event : ℕ → ℕ → String → Dict String → String → State → State
  log_event ref user event_name event_value metadata =
      n.statsig_log_event ref user (event_text event_name event_value metadata)

  unfoldable pub override_experiment_by_group_name :
      ℕ → String → String → Option String → State → State
  override_experiment_by_group_name ref experiment_name group_name id =
      n.statsig_override_experiment_by_group_name ref experiment_name group_name id
