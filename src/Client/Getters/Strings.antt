-- ===== src/Client/Getters/Strings.antt =====
-- The strings that the native library hands out are given back.
use statsig_cpp_core.Prelude.{ℕ, String, Bool, Option}
use statsig_cpp_core.Json.{JsonApi}
use statsig_cpp_core.Types.{FeatureGate}
use statsig_cpp_core.Layer.{Layer}
use statsig_cpp_core.Options.{
  CheckGateOptions, GetDynamicConfigOptions, GetExperimentOptions, GetLayerOptions,
}
use statsig_cpp_core.Client.Native.{Native}
use statsig_cpp_core.Client.Getters.{
  check_gate, get_feature_gate, get_experiment, get_dynamic_config, get_layer,
  get_experiment_by_group_name, get_experiment_by_group_id_advanced, get_experiment_groups,
  initialize_with_details_blocking,
}
use statsig_cpp_core.Client.Getters.Lists.{Entity, entity_list}
use statsig_cpp_core.Client.Getters.Balanced.{StringLaws, Balanced}
use statsig_cpp_core.Client.Getters.Balanced.Each.{
  check_gate-Balanced, get_feature_gate-Balanced, get_dynamic_config-Balanced,
  get_experiment-Balanced, get_layer-Balanced, by_group_name-Balanced, by_group_id-Balanced,
  get_experiment_groups-Balanced, details-Balanced, entity_list-Balanced,
}

module _ (n : Native) (out : ℕ → n.State → ℕ) (laws : StringLaws n out) (api : JsonApi)
    (ref : ℕ) where
  -- If each call of the native library hands out the string that it returns and free_string
  -- takes one back, then checkGate, the getters, initializeWithDetailsBlocking,
  -- getExperimentGroups and the five entity lists leave no string handed out that was not
  -- before, whatever the answer is, and whether they return or throw.
  pub strings_given_back :
      (user : ℕ) (name group : String) (unset : FeatureGate) (unset_layer : Layer api.Json)
      (flag : Bool) (gate_options : Option CheckGateOptions)
      (config_options : Option GetDynamicConfigOptions)
      (options : Option (GetExperimentOptions api.Json))
      (layer_options : Option (GetLayerOptions api.Json)) (kind : Entity)
      → Balanced n out laws (check_gate n api ref user name gate_options)
        × Balanced n out laws (get_feature_gate n api ref user unset name gate_options)
        × Balanced n out laws (get_dynamic_config n api ref user name config_options)
        × Balanced n out laws (get_experiment n api ref user name options)
        × Balanced n out laws (get_layer n api ref user unset_layer flag name layer_options)
        × Balanced n out laws (get_experiment_by_group_name n api ref name group)
        × Balanced n out laws (get_experiment_by_group_id_advanced n api ref name group)
        × Balanced n out laws (get_experiment_groups n api ref name)
        × Balanced n out laws (initialize_with_details_blocking n api ref)
        × Balanced n out laws (entity_list n api ref kind)
  strings_given_back user name group unset unset_layer flag gate_options config_options options
        layer_options kind =
      (
        check_gate-Balanced n out laws api ref user name gate_options,
        get_feature_gate-Balanced n out laws api ref user name unset gate_options,
        get_dynamic_config-Balanced n out laws api ref user name config_options,
        get_experiment-Balanced n out laws api ref user name options,
        get_layer-Balanced n out laws api ref user name unset_layer flag layer_options,
        by_group_name-Balanced n out laws api ref name group,
        by_group_id-Balanced n out laws api ref name group,
        get_experiment_groups-Balanced n out laws api ref name,
        details-Balanced n out laws api ref,
        entity_list-Balanced n out laws api ref kind,
      )
