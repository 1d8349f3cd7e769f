-- ===== src/Types/Experiment.antt =====
-- src/types.h: `Experiment`, which is decoded from either of two spellings of its keys.
pub mod Fields
pub mod Styles
pub mod RoundTrip
use statsig_cpp_core.Prelude.{
  String, Bool, false, ◌&&◌, Option, none, some, [], ◌∷◌, Dict, Result, ok, if◌then◌else◌,
}
use statsig_cpp_core.Prelude.Results.{◌>>=◌}
use statsig_cpp_core.Json.{JsonApi, is_object}
use statsig_cpp_core.Sticky.{value_or}
use statsig_cpp_core.Types.{
  EvaluationDetails, get_optional, get_at, details_from_json, details_to_json,
}

pub record Experiment (J : Type 0) : Type 0 where
  pub name : String
  pub value : Dict J
  pub rule_id : String
  pub id_type : String
  pub group_name : Option String
  pub details : EvaluationDetails
  pub is_experiment_active : Bool

abbrev pub default_details : EvaluationDetails
default_details = record { lcut = none; received_at = none; reason = "" }

-- `Experiment()`
abbrev pub default_experiment : (J : Type 0) → Experiment J
default_experiment J = record {
  name = "";
  value = [];
  rule_id = "";
  id_type = "";
  group_name = none;
  details = default_details;
  is_experiment_active = false;
}

module _ (api : JsonApi) where
  open api use {
    Json, parse, of_string, of_object, contains, index, at, get_bool, get_string, get_map,
  }

  -- The second result if the first is absent.
  or_else : {A : Type 0} → Option A → Result (Option A) → Result (Option A)
  or_else (some a) next = ok (some a)
  or_else none next = next

  -- The entry of the first key, or else of the second.
  pub get_either : {A : Type 0} → (Json → Result A) → Json → String → String → Result (Option A)
  unfolding or_else
  get_either get j first second = do
    a ← get_optional api get j first
    or_else a (get_optional api get j second)

  pub pick : Json → String → String → Result String
  pick j snake camel = do a ← get_either get_string j snake camel; ok (value_or a "")

  -- The "value" entry, if it is an object; the "details" entry, if there is one.
  pub decode_value : Json → Result (Dict Json)
  decode_value j =
      let entries = get_at api (get_map ok) j "value" in
      if contains j "value" && is_object api (index j "value") then entries else ok []

  pub decode_details : Json → Result EvaluationDetails
  decode_details j =
      let given = get_at api (details_from_json api) j "details" in
      if contains j "details" then given else ok default_details

  -- The fields keep what a new `Experiment` holds where the JSON does not say.
  pub experiment_from_json : Json → Result (Experiment Json)
  experiment_from_json j = do
    name ← get_optional api get_string j "name"
    m ← decode_value j
    rule_id ← pick j "rule_id" "ruleID"
    id_type ← pick j "id_type" "idType"
    details ← decode_details j
    group_name ← get_either get_string j "group_name" "groupName"
    active ← get_either get_bool j "is_experiment_active" "isExperimentActive"
    ok (record {
      name = value_or name "";
      value = m;
      rule_id = rule_id;
      id_type = id_type;
      group_name = group_name;
      details = details;
      is_experiment_active = value_or active false;
    })

  pub experiment_to_json : Experiment Json → Json
  experiment_to_json c = of_object (
      ("name", of_string c.name)
      ∷ ("value", of_object c.value)
      ∷ ("rule_id", of_string c.rule_id)
      ∷ ("id_type", of_string c.id_type)
      ∷ ("details", details_to_json api c.details)
      ∷ [])

  -- `Experiment(json_str)`
  pub parse_experiment : String → Result (Experiment Json)
  parse_experiment json_str = do j ← parse json_str; experiment_from_json j
