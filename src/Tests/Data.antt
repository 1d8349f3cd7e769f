-- ===== src/Tests/Data.antt =====
-- The JSON forms on concrete values.
use statsig_cpp_core.Prelude.{
  Option, Dict, lookup, String, ℕ, ◌<◌, ◌^◌, ◌≡◌, refl, true, false, none, some, [], ◌∷◌, ok, throw,
  json_exception, some-injective, subst, arith,
}
use statsig_cpp_core.Json.{JsonApi, JsonLaws, is_null}
use statsig_cpp_core.Json.Tree.{Tree, null, string, uint, object, entry, end, tree_api}
use statsig_cpp_core.Json.Tree.Laws.{tree_laws}
use statsig_cpp_core.Sticky.{
  StickyValues, default_sticky_values, get_opt, sticky_from_json, sticky_to_json,
}
use statsig_cpp_core.Sticky.RoundTrip.{InRange, IsStorable, sticky_round_trip}
use statsig_cpp_core.Types.{EvaluationDetails, details_to_json}
use statsig_cpp_core.Types.RoundTrip.{drop_received, details_round_trip}
use statsig_cpp_core.Types.Experiment.{
  Experiment, default_experiment, experiment_from_json, experiment_to_json,
}
use statsig_cpp_core.Types.Experiment.RoundTrip.{experiment_round_trip}
use statsig_cpp_core.User.{decode_entries}
use statsig_cpp_core.User.Entries.{ThrowsStd, last_decoded, decode_entries_lenient}
use statsig_cpp_core.Types.{get_optional}
use statsig_cpp_core.Types.GetOptional.{get_optional-eq-get_opt}
use statsig_cpp_core.Types.Experiment.Styles.{
  Said, Says, snake_keys, camel_keys, experiment_of, experiment_styles,
}
use statsig_cpp_core.Types.Allowed.{AllowedType, allowed_from_json, primitive_from_json}
use statsig_cpp_core.Options.{
  SpecAdapterConfig, StatsigOptionsBuilder, default_options, spec_adapter_config,
  type_network_grpc_websocket, type_network_http, auth_none, auth_tls, auth_mtls,
  set_persistent_storage, set_observability_client, options_to_json,
}
use statsig_cpp_core.Options.{
  GetExperimentOptions, GetLayerOptions, experiment_options_to_json, layer_options_to_json,
}
use statsig_cpp_core.Json.Entries.{map_some}
use statsig_cpp_core.Options.Persisted.{options_carry_persisted}
use statsig_cpp_core.Sticky.{UserPersistedValues, persisted_to_json}
use statsig_cpp_core.Options.Encode.{ref_or_null, ref_json, options_carry_refs}

-- No text is JSON, and no value is written.
abbrev api : JsonApi
api = tree_api (λ s. throw json_exception) (λ t. throw json_exception)

abbrev laws : JsonLaws api
laws = tree_laws (λ s. throw json_exception) (λ t. throw json_exception)

abbrev some_sticky_values : StickyValues Tree
some_sticky_values = record (default_sticky_values Tree) {
  value = true;
  json_value = some (object (entry "color" (string "red") end));
  rule_id = some "rule";
  secondary_exposures = record { gate = "g"; gate_value = "true"; rule_id = "r" } ∷ [];
  explicit_parameters = some ("color" ∷ []);
  time = some 1700000000000;
  config_version = some 3;
}

InRange-some : (b n : ℕ) → n < b → InRange b (some n)
InRange-some b n h m e = subst (λ k. k < b) (some-injective n m e) h

some_sticky_values-IsStorable : IsStorable api laws some_sticky_values
some_sticky_values-IsStorable = record {
  no_null = λ j e.
      subst (λ t. is_null api t ≡ false)
        (some-injective (object (entry "color" (string "red") end)) j e) refl;
  time = InRange-some (2 ^ 64) 1700000000000 (omega arith);
  version = InRange-some (2 ^ 32) 3 (omega arith);
}

sticky_round_trip_example :
    sticky_from_json api (sticky_to_json api some_sticky_values) ≡ ok some_sticky_values
sticky_round_trip_example =
    sticky_round_trip api laws some_sticky_values some_sticky_values-IsStorable

abbrev some_details : EvaluationDetails
some_details = record { lcut = some 17; received_at = some 18; reason = "Network" }

abbrev details_tree : Tree
details_tree = details_to_json api some_details

-- An experiment that the native side does not recognize the value of: the value and the kind of id
-- are null, and the flag is absent.
abbrev said : Said Tree
said = record {
  name = some (some "an_experiment");
  value = some none;
  rule_id = some (some "rule");
  id_type = some none;
  group_name = some (some "test");
  active = none;
  details = some details_tree;
}

abbrev snake_entries : Dict Tree
snake_entries =
    ("name", string "an_experiment")
    ∷ ("value", null)
    ∷ ("rule_id", string "rule")
    ∷ ("id_type", null)
    ∷ ("group_name", string "test")
    ∷ ("details", details_tree)
    ∷ []

abbrev camel_entries : Dict Tree
camel_entries =
    ("idType", null)
    ∷ ("name", string "an_experiment")
    ∷ ("value", null)
    ∷ ("groupName", string "test")
    ∷ ("ruleID", string "rule")
    ∷ ("details", details_tree)
    ∷ []

snake_entries-Says : Says api laws said snake_keys camel_keys snake_entries
snake_entries-Says = record {
  name = refl;
  value = refl;
  details = refl;
  rule_id = refl;
  id_type = refl;
  group_name = refl;
  active = refl;
  no_rule_id = refl;
  no_id_type = refl;
  no_group_name = refl;
  no_active = refl;
}

camel_entries-Says : Says api laws said camel_keys snake_keys camel_entries
camel_entries-Says = record {
  name = refl;
  value = refl;
  details = refl;
  rule_id = refl;
  id_type = refl;
  group_name = refl;
  active = refl;
  no_rule_id = refl;
  no_id_type = refl;
  no_group_name = refl;
  no_active = refl;
}

experiment_styles_example :
    (experiment_from_json api (api.of_object snake_entries)
      ≡ ok (experiment_of api laws said (drop_received some_details)))
    × (experiment_from_json api (api.of_object camel_entries)
        ≡ ok (experiment_of api laws said (drop_received some_details)))
experiment_styles_example =
    experiment_styles api laws said (drop_received some_details) snake_entries camel_entries
      snake_entries-Says camel_entries-Says
      (details_round_trip api laws some_details (InRange-some (2 ^ 64) 17 (omega arith)))

-- The timeout is 3000 ms unless it is set.
abbrev adapter_over : String → String → Option ℕ → SpecAdapterConfig
adapter_over kind mode timeout =
    spec_adapter_config kind none timeout (some mode) none none none none

timeouts :
    ((adapter_over type_network_http auth_none none).init_timeout_ms ≡ 3000)
    × ((adapter_over type_network_http auth_tls (some 10)).init_timeout_ms ≡ 10)
    × ((adapter_over type_network_grpc_websocket auth_mtls none).init_timeout_ms ≡ 3000)
unfolding spec_adapter_config
timeouts = (refl, refl, refl)

abbrev both_refs : StatsigOptionsBuilder
both_refs = set_observability_client 0 (set_persistent_storage 3 default_options)

options_carry_refs_example :
    (both_refs ≡ set_persistent_storage 3 (set_observability_client 0 default_options))
    × (api.find (options_to_json api both_refs) "persistent_storage_ref" ≡ some (ref_json api 3))
    × (api.find (options_to_json api both_refs) "observability_client_ref" ≡ some (ref_json api 0))
    × (get_opt api api.get_uint64 (options_to_json api both_refs) "persistent_storage_ref"
        ≡ ok (ref_or_null 3))
    × (get_opt api api.get_uint64 (options_to_json api both_refs) "observability_client_ref"
        ≡ ok (ref_or_null 0))
options_carry_refs_example =
    options_carry_refs api laws 3 0 default_options (omega arith) (omega arith)

abbrev an_experiment : Experiment Tree
an_experiment = record (default_experiment Tree) {
  name = "exp";
  value = ("size", uint 3) ∷ [];
  group_name = some "test";
  details = some_details;
  is_experiment_active = true;
}

experiment_round_trip_example :
    experiment_from_json api (experiment_to_json api an_experiment)
    ≡ ok (record an_experiment {
      group_name = none;
      details = drop_received some_details;
      is_experiment_active = false;
    })
experiment_round_trip_example =
    experiment_round_trip api laws an_experiment (InRange-some (2 ^ 64) 17 (omega arith))

-- The second entry is no attribute.
abbrev some_entries : Dict Tree
some_entries = ("plan", string "pro") ∷ ("plan", null) ∷ []

some_entries-ThrowsStd : ThrowsStd api some_entries
unfolding allowed_from_json primitive_from_json
some_entries-ThrowsStd = (λ e. cc, (λ e. cc, tt))

decode_entries_lenient_example :
    (m : Dict (AllowedType ℕ)) × (decode_entries api some_entries [] ≡ ok m)
    × ((k : String) → lookup k m ≡ last_decoded api some_entries k (lookup k []))
decode_entries_lenient_example = decode_entries_lenient api some_entries [] some_entries-ThrowsStd

abbrev some_options : GetExperimentOptions Tree
some_options = record {
  disable_exposure_logging = false;
  enforce_overrides = true;
  enforce_targeting = false;
  user_persisted_values = some (("exp", some_sticky_values) ∷ []);
}

abbrev no_persisted : GetLayerOptions Tree
no_persisted = record {
  disable_exposure_logging = true;
  enforce_overrides = false;
  enforce_targeting = false;
  user_persisted_values = none;
}

options_carry_persisted_example :
    (api.find (experiment_options_to_json api some_options) "user_persisted_values"
      ≡ map_some (persisted_to_json api) some_options.user_persisted_values)
    × (api.find (layer_options_to_json api no_persisted) "user_persisted_values"
        ≡ map_some (persisted_to_json api) no_persisted.user_persisted_values)
    × ((m : UserPersistedValues Tree)
        → api.find (persisted_to_json api m) "exp" ≡ map_some (sticky_to_json api) (lookup "exp" m))
options_carry_persisted_example = options_carry_persisted api laws some_options no_persisted "exp"

get_optional-eq-get_opt_example :
    get_optional api api.get_string (api.of_object camel_entries) "idType"
    ≡ get_opt api api.get_string (api.of_object camel_entries) "idType"
get_optional-eq-get_opt_example =
    get_optional-eq-get_opt api laws api.get_string (api.of_object camel_entries) "idType"
