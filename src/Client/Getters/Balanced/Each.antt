-- ===== src/Client/Getters/Balanced/Each.antt =====
-- The calls of src/statsig.cpp, each of which gives back what it gets.
use statsig_cpp_core.Prelude.{ℕ, String, Bool, Option, [], ok}
use statsig_cpp_core.Prelude.Effects.{◌>>=◌}
use statsig_cpp_core.Json.{JsonApi}
use statsig_cpp_core.Types.{FeatureGate, parse_gate, parse_config}
use statsig_cpp_core.Types.Experiment.{default_experiment, parse_experiment}
use statsig_cpp_core.Layer.{Layer, parse_layer}
use statsig_cpp_core.Options.{
  CheckGateOptions, GetDynamicConfigOptions, GetExperimentOptions, GetLayerOptions,
  gate_options_to_json, config_options_to_json, experiment_options_to_json, layer_options_to_json,
}
use statsig_cpp_core.Client.Native.{Native}
use statsig_cpp_core.Client.Decode.{no_groups, decode_groups, decode_names}
use statsig_cpp_core.Client.Getters.{
  default_config, call, answered_sized, serialize, check_gate, get_feature_gate, get_experiment,
  get_dynamic_config, get_layer, get_experiment_by_group_name, get_experiment_by_group_id_advanced,
  get_experiment_groups, initialize_with_details_blocking,
}
use statsig_cpp_core.Client.Getters.Lists.{
  list_of, Entity, native_list, entity_list, get_feature_gate_list, get_dynamic_config_list,
  get_experiment_list, get_autotune_list, get_layer_list,
}
use statsig_cpp_core.Client.Getters.Balanced.{
  StringLaws, Balanced, ask-Balanced, ask_first-Balanced, ask_sized-Balanced, serialized-Balanced,
}

module _ (n : Native) (out : ℕ → n.State → ℕ) (laws : StringLaws n out) where
  module _ (api : JsonApi) (ref : ℕ) where
    names_asked-Balanced :
        (kind : Entity)
        → Balanced n out laws (
            call (native_list n ref kind)
            >>= (λ result. answered_sized n (decode_names api) [] result))
    names_asked-Balanced kind =
        ask_sized-Balanced n out laws (native_list n ref kind) (decode_names api) []
          (laws.lists ref kind)

    pub entity_list-Balanced : (kind : Entity) → Balanced n out laws (entity_list n api ref kind)
    unfolding get_feature_gate_list get_dynamic_config_list get_experiment_list get_autotune_list
        get_layer_list list_of
    entity_list-Balanced Entity.feature_gate = names_asked-Balanced Entity.feature_gate
    entity_list-Balanced Entity.dynamic_config = names_asked-Balanced Entity.dynamic_config
    entity_list-Balanced Entity.experiment = names_asked-Balanced Entity.experiment
    entity_list-Balanced Entity.autotune = names_asked-Balanced Entity.autotune
    entity_list-Balanced Entity.layer = names_asked-Balanced Entity.layer

    module _ (user : ℕ) (name : String) where
      pub check_gate-Balanced :
          (options : Option CheckGateOptions)
          → Balanced n out laws (check_gate n api ref user name options)
      unfolding check_gate
      check_gate-Balanced options =
          serialized-Balanced n out laws (serialize api (gate_options_to_json api) options) _
            (λ text. record { at = λ p s. laws.check_gate ref user name text p s })

      pub get_feature_gate-Balanced :
          (unset : FeatureGate) (options : Option CheckGateOptions)
          → Balanced n out laws (get_feature_gate n api ref user unset name options)
      unfolding get_feature_gate
      get_feature_gate-Balanced unset options =
          serialized-Balanced n out laws (serialize api (gate_options_to_json api) options) _
            (λ text.
              ask-Balanced n out laws (n.statsig_get_feature_gate ref user name text)
                (parse_gate api) unset (laws.gate ref user name text))

      pub get_dynamic_config-Balanced :
          (options : Option GetDynamicConfigOptions)
          → Balanced n out laws (get_dynamic_config n api ref user name options)
      unfolding get_dynamic_config
      get_dynamic_config-Balanced options =
          serialized-Balanced n out laws (serialize api (config_options_to_json api) options) _
            (λ text.
              ask-Balanced n out laws (n.statsig_get_dynamic_config ref user name text)
                (parse_config api) (default_config api.Json) (laws.config ref user name text))

      pub get_experiment-Balanced :
          (options : Option (GetExperimentOptions api.Json))
          → Balanced n out laws (get_experiment n api ref user name options)
      unfolding get_experiment
      get_experiment-Balanced options =
          serialized-Balanced n out laws (serialize api (experiment_options_to_json api) options) _
            (λ text.
              ask-Balanced n out laws (n.statsig_get_experiment ref user name text)
                (parse_experiment api) (default_experiment api.Json)
                (laws.experiment ref user name text))

      pub get_layer-Balanced :
          (unset : Layer api.Json) (flag : Bool) (options : Option (GetLayerOptions api.Json))
          → Balanced n out laws (get_layer n api ref user unset flag name options)
      unfolding get_layer
      get_layer-Balanced unset flag options =
          serialized-Balanced n out laws (serialize api (layer_options_to_json api) options) _
            (λ text.
              ask-Balanced n out laws (n.statsig_get_layer ref user name text)
                (parse_layer api flag ref) unset (laws.layer ref user name text))

    pub by_group_name-Balanced :
        (name group : String)
        → Balanced n out laws (get_experiment_by_group_name n api ref name group)
    unfolding get_experiment_by_group_name
    by_group_name-Balanced name group =
        ask_first-Balanced n out laws (n.statsig_get_raw_experiment_by_group_name ref name group)
          (parse_experiment api) (default_experiment api.Json) (laws.by_name ref name group)

    pub by_group_id-Balanced :
        (name id : String)
        → Balanced n out laws (get_experiment_by_group_id_advanced n api ref name id)
    unfolding get_experiment_by_group_id_advanced
    by_group_id-Balanced name id =
        ask_first-Balanced n out laws
          (n.statsig_get_raw_experiment_by_group_id_advanced ref name id) (parse_experiment api)
          (default_experiment api.Json) (laws.by_id ref name id)

    pub get_experiment_groups-Balanced :
        (name : String) → Balanced n out laws (get_experiment_groups n api ref name)
    unfolding get_experiment_groups
    get_experiment_groups-Balanced name =
        ask_sized-Balanced n out laws (n.statsig_get_experiment_groups ref name) (decode_groups api)
          (no_groups api.Json) (laws.groups ref name)

    pub details-Balanced : Balanced n out laws (initialize_with_details_blocking n api ref)
    unfolding initialize_with_details_blocking
    details-Balanced =
        ask-Balanced n out laws (n.statsig_initialize_with_details_blocking ref) ok ""
          (laws.details ref)
