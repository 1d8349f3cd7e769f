-- ===== src/Types/Experiment/RoundTrip.antt =====
-- What of an experiment survives the trip through its JSON form.
use statsig_cpp_core.Prelude.{
  ◌^◌, String, ◌≡◌, refl, false, none, Dict, lookup, Result, ok, bind_ok,
}
use statsig_cpp_core.Json.{JsonApi, JsonLaws}
use statsig_cpp_core.Sticky.RoundTrip.{InRange}
use statsig_cpp_core.Types.GetOptional.{get_optional_missing, get_optional_string}
use statsig_cpp_core.Types.RoundTrip.{drop_received, details_round_trip}
use statsig_cpp_core.Types.Experiment.{
  Experiment, get_either, experiment_from_json, experiment_to_json,
}
use statsig_cpp_core.Types.Experiment.Fields.{pick_first, decode_value_found, decode_details_found}

module _ (api : JsonApi) (laws : JsonLaws api) where
  open api use {Json, of_object, get_string, get_bool}

  get_either_missing :
      {A : Type 0} (get : Json → Result A) (m : Dict Json) (first second : String)
      → lookup first m ≡ none
      → lookup second m ≡ none
      → get_either api get (of_object m) first second ≡ ok none
  unfolding get_either
  get_either_missing get m first second e h =
      bind_ok _ (get_optional_missing api laws get m first e)
        (get_optional_missing api laws get m second h)

  -- For every experiment with a config time in range, from_json of its to_json returns the name,
  -- the rule, the kind of id, the config time and reason of the details and the entries of the
  -- value as the library stores them; it loses the group name, the flag, which becomes false, and
  -- the time of receipt, which to_json does not write or writes under another key.
  pub experiment_round_trip :
      (e : Experiment Json)
      → InRange (2 ^ 64) e.details.lcut
      → experiment_from_json api (experiment_to_json api e)
        ≡ ok (record e {
          value = api.items (of_object e.value);
          group_name = none;
          details = drop_received e.details;
          is_experiment_active = false;
        })
  unfolding experiment_from_json experiment_to_json
  experiment_round_trip e h = bind_ok _ (get_optional_string api laws _ "name" e.name refl) (
      bind_ok _ (decode_value_found api laws _ e.value refl) (
        bind_ok _ (pick_first api laws _ "rule_id" "ruleID" e.rule_id refl) (
          bind_ok _ (pick_first api laws _ "id_type" "idType" e.id_type refl) (
            bind_ok _
              (decode_details_found api laws _ _ _ refl (details_round_trip api laws e.details h))
              (bind_ok _ (get_either_missing get_string _ "group_name" "groupName" refl refl) (
                bind_ok _
                  (get_either_missing get_bool _ "is_experiment_active" "isExperimentActive" refl
                    refl)
                  refl))))))
