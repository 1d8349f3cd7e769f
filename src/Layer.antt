-- ===== src/Layer.antt =====
-- src/layer.h: the parameters of a layer, decoded from an answer of the native library, and the
-- exposures that reading them logs.
pub mod Decode
pub mod Exposures
use statsig_cpp_core.Prelude.{
  ℕ, String, Bool, not, ◌&&◌, Option, none, some, List, ◌∷◌, Dict, lookup, [], Result, ok,
  if◌then◌else◌,
}
use statsig_cpp_core.Prelude.Results.{◌>>=◌}
use statsig_cpp_core.Json.{JsonApi, is_null}
use statsig_cpp_core.Types.{EvaluationDetails, get_optional, details_from_json}
use statsig_cpp_core.Types.Experiment.{default_details}

pub record Layer (J : Type 0) : Type 0 where
  pub is_experiment_active : Bool
  pub rule_id : String
  pub id_type : String
  pub allocated_experiment_name : Option String
  pub group_name : Option String
  pub value : Dict J
  pub details : EvaluationDetails
  pub statsig_ref : ℕ
  pub json_str : String

-- The members before the constructor's body: `unset` is what the flag, which nothing initializes,
-- happens to hold.
abbrev pub new_layer : (J : Type 0) → Bool → ℕ → String → Layer J
new_layer J unset statsig_ref json_str = record {
  is_experiment_active = unset;
  rule_id = "";
  id_type = "";
  allocated_experiment_name = none;
  group_name = none;
  value = [];
  details = default_details;
  statsig_ref = statsig_ref;
  json_str = json_str;
}

module _ (api : JsonApi) where
  open api use {Json, parse, contains, index, at, get_bool, get_string, get_map}

  -- `if (!j.at(key).is_null()) j.at(key).get_to(member)`
  pub at_unless_null : {A : Type 0} → (Json → Result A) → Json → String → A → Result A
  at_unless_null get j key old = do v ← at j key; if is_null api v then ok old else get v

  pub optional_unless_null : Json → String → Option String → Result (Option String)
  optional_unless_null j key old =
      let given = get_optional api get_string j key in
      if contains j key && not (is_null api (index j key)) then given else ok old

  pub layer_from_json : Json → Layer Json → Result (Layer Json)
  layer_from_json j l = do
    rule_id ← at_unless_null get_string j "rule_id" l.rule_id
    id_type ← at_unless_null get_string j "id_type" l.id_type
    m ← at_unless_null (get_map ok) j "__value" l.value
    details ← at_unless_null (details_from_json api) j "details" l.details
    name ← optional_unless_null j "allocated_experiment_name" l.allocated_experiment_name
    group ← optional_unless_null j "group_name" l.group_name
    active ← at_unless_null get_bool j "is_experiment_active" l.is_experiment_active
    ok (record l {
      is_experiment_active = active;
      rule_id = rule_id;
      id_type = id_type;
      allocated_experiment_name = name;
      group_name = group;
      value = m;
      details = details;
    })

  -- `Layer(statsig_ref, json_str)`
  pub parse_layer : Bool → ℕ → String → Result (Layer Json)
  parse_layer unset statsig_ref json_str = do
    j ← parse json_str
    layer_from_json j (new_layer Json unset statsig_ref json_str)
