-- ===== src/Client/Methods.antt =====
-- src/statsig.h: the methods of the class `Statsig` with their arguments, and what they return.
use statsig_cpp_core.Prelude.{ℕ, String, Bool, Option, List, Dict}
use statsig_cpp_core.Options.{
  CheckGateOptions, GetDynamicConfigOptions, GetExperimentOptions, GetLayerOptions,
}
use statsig_cpp_core.Types.{FeatureGate, DynamicConfig}
use statsig_cpp_core.Types.Experiment.{Experiment}
use statsig_cpp_core.Types.Groups.{ExperimentGroupsResult}
use statsig_cpp_core.Layer.{Layer}

-- The methods with their arguments; a user is its ref, and an empty `std::function` is `none`. The
-- gate and the layer with a flag are what the uninitialized members happen to hold.
pub data Method (S J : Type 0) : Type 0 where
  initialize : Option (S → S) → Method S J
  initialize_with_details : Option (String → S → S) → Method S J
  initialize_with_details_blocking initialize_blocking : Method S J
  shutdown : Option (S → S) → Method S J
  shutdown_blocking : Method S J
  flush_events : Option (S → S) → Method S J
  flush_events_blocking : Method S J
  log_event :
      (user : ℕ) (event_name : String) (event_value : Dict String) (metadata : String) → Method S J
  check_gate : (user : ℕ) (gate_name : String) → Option CheckGateOptions → Method S J
  get_feature_gate :
      (user : ℕ) (gate_name : String) → Option CheckGateOptions → FeatureGate → Method S J
  get_experiment :
      (user : ℕ) (experiment_name : String) → Option (GetExperimentOptions J) → Method S J
  get_experiment_by_group_name : (experiment_name group_name : String) → Method S J
  get_experiment_by_group_id_advanced : (experiment_name group_id : String) → Method S J
  override_experiment_by_group_name :
      (experiment_name group_name : String) → Option String → Method S J
  get_experiment_groups : (experiment_name : String) → Method S J
  get_dynamic_config :
      (user : ℕ) (config_name : String) → Option GetDynamicConfigOptions → Method S J
  get_layer :
      (user : ℕ) (layer_name : String) → Option (GetLayerOptions J) → Layer J → Bool → Method S J
  get_feature_gate_list get_dynamic_config_list get_experiment_list get_autotune_list
        get_layer_list :
      Method S J

-- What a method returns.
pub data Answer (J : Type 0) : Type 0 where
  nothing : Answer J
  text : String → Answer J
  flag : Bool → Answer J
  gate : FeatureGate → Answer J
  experiment : Experiment J → Answer J
  groups : ExperimentGroupsResult J → Answer J
  config : DynamicConfig J → Answer J
  layer : Layer J → Answer J
  names : List String → Answer J
