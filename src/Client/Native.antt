-- ===== src/Client/Native.antt =====
-- The functions of the native library that the client calls, as an interface. The library is not
-- part of the repository; include/libstatsig_ffi.h declares its functions, under these names. A
-- `uint64_t` ref is a number, a string that is passed is its text, and a `char *` that is returned
-- is an address, or `none` if it is null.
use statsig_cpp_core.Prelude.{ℕ, String, Bool, Option}

pub record Native : Type 1 where
  pub State : Type 0
  -- the text at an address, up to the first NUL, and the text of a number of bytes
  pub c_string : ℕ → State → String
  pub bytes : ℕ → ℕ → State → String
  pub free_string : ℕ → State → State
  pub statsig_create : String → ℕ → State → ℕ × State
  pub statsig_release : ℕ → State → State
  -- with a function pointer, which may be null; a function of the client acts on the state
  pub statsig_initialize : ℕ → Option (State → State) → State → State
  pub statsig_initialize_with_details : ℕ → Option (Option ℕ → State → State) → State → State
  pub statsig_shutdown : ℕ → Option (State → State) → State → State
  pub statsig_flush_events : ℕ → Option (State → State) → State → State
  pub statsig_initialize_blocking : ℕ → State → State
  pub statsig_shutdown_blocking : ℕ → State → State
  pub statsig_flush_events_blocking : ℕ → State → State
  pub statsig_log_event : ℕ → ℕ → String → State → State
  pub statsig_override_experiment_by_group_name :
      ℕ → String → String → Option String → State → State
  pub statsig_check_gate : ℕ → ℕ → String → String → State → Bool × State
  -- with a returned string
  pub statsig_initialize_with_details_blocking : ℕ → State → Option ℕ × State
  pub statsig_get_feature_gate : ℕ → ℕ → String → String → State → Option ℕ × State
  pub statsig_get_experiment : ℕ → ℕ → String → String → State → Option ℕ × State
  pub statsig_get_dynamic_config : ℕ → ℕ → String → String → State → Option ℕ × State
  pub statsig_get_layer : ℕ → ℕ → String → String → State → Option ℕ × State
  -- with a returned string and the length that is written to `inout_result_len`
  pub statsig_get_raw_experiment_by_group_name :
      ℕ → String → String → State → (Option ℕ × ℕ) × State
  pub statsig_get_raw_experiment_by_group_id_advanced :
      ℕ → String → String → State → (Option ℕ × ℕ) × State
  pub statsig_get_experiment_groups : ℕ → String → State → (Option ℕ × ℕ) × State
  pub statsig_get_feature_gate_list : ℕ → State → (Option ℕ × ℕ) × State
  pub statsig_get_dynamic_config_list : ℕ → State → (Option ℕ × ℕ) × State
  pub statsig_get_experiment_list : ℕ → State → (Option ℕ × ℕ) × State
  pub statsig_get_autotune_list : ℕ → State → (Option ℕ × ℕ) × State
  pub statsig_get_layer_list : ℕ → State → (Option ℕ × ℕ) × State
