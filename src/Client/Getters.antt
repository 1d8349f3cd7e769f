-- ===== src/Client/Getters.antt =====
-- src/statsig.cpp: the functions that decode an answer of the native library.
pub mod Lists
pub mod Balanced
pub mod Strings
use statsig_cpp_core.Prelude.{ℕ, String, Bool, Option, none, some, List, [], Result, ok}
use statsig_cpp_core.Prelude.Effects.{Exec, ◌>>=◌, pure, lift}
use statsig_cpp_core.Json.{JsonApi}
use statsig_cpp_core.Types.{FeatureGate, DynamicConfig, parse_gate, parse_config}
use statsig_cpp_core.Types.Experiment.{
  Experiment, default_details, default_experiment, parse_experiment,
}
use statsig_cpp_core.Types.Groups.{ExperimentGroupsResult}
use statsig_cpp_core.Layer.{Layer, parse_layer}
use statsig_cpp_core.Client.Native.{Native}
use statsig_cpp_core.Client.Decode.{no_groups, decode_groups, decode_names}
use statsig_cpp_core.Options.{
  CheckGateOptions, GetDynamicConfigOptions, GetExperimentOptions, GetLayerOptions,
  gate_options_to_json, config_options_to_json, experiment_options_to_json, layer_options_to_json,
}

-- `DynamicConfig()`
abbrev pub default_config : (J : Type 0) → DynamicConfig J
default_config J = record {
  name = "";
  value = [];
  rule_id = "";
  id_type = "";
  details = default_details;
}

abbrev pub call : {S A : Type 0} → (S → A × S) → Exec S A
call f s = (ok (f s).0, (f s).1)

module _ (n : Native) {A : Type 0} (decode : String → Result A) (default : A) where
  -- `if (result) { std::string result_str(result); free_string(result); return …; } return …;`
  pub answered : Option ℕ → Exec n.State A
  answered none s = (ok default, s)
  answered (some p) s = (decode (n.c_string p s), n.free_string p s)

  -- The same with `std::string result_str(result, result_len);`.
  pub answered_sized : Option ℕ × ℕ → Exec n.State A
  answered_sized (none, len) s = (ok default, s)
  answered_sized (some p, len) s = (decode (n.bytes p len s), n.free_string p s)

module _ (api : JsonApi) where
  unfoldable pub serialize : {O : Type 0} → (O → api.Json) → Option O → Result String
  serialize to_json none = ok "{}"
  serialize to_json (some options) = api.dump (to_json options)

module _ (n : Native) (api : JsonApi) (ref : ℕ) where
  open n use {State}
  open api use {Json}

  pub check_gate : ℕ → String → Option CheckGateOptions → Exec State Bool
  unfolding serialize
  check_gate user gate_name options = do
    serialized_options ← lift (serialize api (gate_options_to_json api) options)
    call (n.statsig_check_gate ref user gate_name serialized_options)

  -- `unset` is the gate that `FeatureGate()` gives, whose `value` is not initialized.
  pub get_feature_gate : ℕ → FeatureGate → String → Option CheckGateOptions → Exec State FeatureGate
  unfolding serialize answered
  get_feature_gate user unset gate_name options = do
    serialized_options ← lift (serialize api (gate_options_to_json api) options)
    result ← call (n.statsig_get_feature_gate ref user gate_name serialized_options)
    answered n (parse_gate api) unset result

  pub get_experiment :
      ℕ → String → Option (GetExperimentOptions Json) → Exec State (Experiment Json)
  unfolding serialize answered
  get_experiment user experiment_name options = do
    serialized_options ← lift (serialize api (experiment_options_to_json api) options)
    result ← call (n.statsig_get_experiment ref user experiment_name serialized_options)
    answered n (parse_experiment api) (default_experiment Json) result

  pub get_dynamic_config :
      ℕ → String → Option GetDynamicConfigOptions → Exec State (DynamicConfig Json)
  unfolding serialize answered
  get_dynamic_config user config_name options = do
    serialized_options ← lift (serialize api (config_options_to_json api) options)
    result ← call (n.statsig_get_dynamic_config ref user config_name serialized_options)
    answered n (parse_config api) (default_config Json) result

  -- `unset` is what `Layer()` gives, whose flag and ref are not initialized, and `unset_flag` what
  -- the flag of the other constructor happens to hold.
  pub get_layer :
      ℕ → Layer Json → Bool → String → Option (GetLayerOptions Json) → Exec State (Layer Json)
  unfolding serialize answered
  get_layer user unset unset_flag layer_name options = do
    serialized_options ← lift (serialize api (layer_options_to_json api) options)
    result ← call (n.statsig_get_layer ref user layer_name serialized_options)
    answered n (parse_layer api unset_flag ref) unset result

  pub get_experiment_by_group_name : String → String → Exec State (Experiment Json)
  unfolding answered
  get_experiment_by_group_name experiment_name group_name = do
    result ← call (n.statsig_get_raw_experiment_by_group_name ref experiment_name group_name)
    answered n (parse_experiment api) (default_experiment Json) result.0

  pub get_experiment_by_group_id_advanced : String → String → Exec State (Experiment Json)
  unfolding answered
  get_experiment_by_group_id_advanced experiment_name group_id = do
    result ← call (n.statsig_get_raw_experiment_by_group_id_advanced ref experiment_name group_id)
    answered n (parse_experiment api) (default_experiment Json) result.0

  pub get_experiment_groups : String → Exec State (ExperimentGroupsResult Json)
  unfolding answered_sized
  get_experiment_groups experiment_name = do
    result ← call (n.statsig_get_experiment_groups ref experiment_name)
    answered_sized n (decode_groups api) (no_groups Json) result

  pub initialize_with_details_blocking : Exec State String
  unfolding answered
  initialize_with_details_blocking = do
    result ← call (n.statsig_initialize_with_details_blocking ref)
    answered n ok "" result
