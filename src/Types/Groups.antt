-- ===== src/Types/Groups.antt =====
-- src/types.h: the groups of an experiment.
pub mod RoundTrip
use statsig_cpp_core.Prelude.{String, Bool, Option, List, [], ◌∷◌, map, Dict, Result, ok}
use statsig_cpp_core.Prelude.Results.{◌>>=◌}
use statsig_cpp_core.Json.{JsonApi}
use statsig_cpp_core.Types.{get_optional}

pub record ExperimentGroup (J : Type 0) : Type 0 where
  pub group_name : String
  pub rule_id : String
  pub id_type : String
  pub return_value : Dict J

pub record ExperimentGroupsResult (J : Type 0) : Type 0 where
  pub is_experiment_active : Option Bool
  pub groups : List (ExperimentGroup J)

module _ (api : JsonApi) where
  open api use {
    Json, of_bool, of_string, of_array, of_object, of_optional, value, get_bool, get_string,
    get_array, get_map,
  }

  unfoldable pub group_from_json : Json → Result (ExperimentGroup Json)
  group_from_json j = do
    group_name ← value get_string j "group_name" ""
    rule_id ← value get_string j "rule_id" ""
    id_type ← value get_string j "id_type" ""
    return_value ← value (get_map ok) j "return_value" []
    ok (record {
      group_name = group_name;
      rule_id = rule_id;
      id_type = id_type;
      return_value = return_value;
    })

  pub group_to_json : ExperimentGroup Json → Json
  group_to_json g = of_object (
      ("group_name", of_string g.group_name)
      ∷ ("rule_id", of_string g.rule_id)
      ∷ ("id_type", of_string g.id_type)
      ∷ ("return_value", of_object g.return_value)
      ∷ [])

  unfoldable pub groups_from_json : Json → Result (ExperimentGroupsResult Json)
  groups_from_json j = do
    active ← get_optional api get_bool j "is_experiment_active"
    groups ← value (get_array group_from_json) j "groups" []
    ok (record { is_experiment_active = active; groups = groups })

  pub groups_to_json : ExperimentGroupsResult Json → Json
  groups_to_json r = of_object (
      ("is_experiment_active", of_optional of_bool r.is_experiment_active)
      ∷ ("groups", of_array (map group_to_json r.groups))
      ∷ [])
