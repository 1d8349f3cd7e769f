-- ===== src/Client/Decode.antt =====
-- src/statsig.cpp: the `try` blocks of `getExperimentGroups` and of the entity lists.
pub mod Total
use statsig_cpp_core.Prelude.{
  String, none, List, [], Result, ok, throw, json_exception, std_exception, non_std, if◌then◌else◌,
}
use statsig_cpp_core.Prelude.Results.{◌>>=◌}
use statsig_cpp_core.Json.{JsonApi, is_array, is_object}
use statsig_cpp_core.Types.Groups.{ExperimentGroupsResult, groups_from_json}

-- `catch (const json::exception &)`: `b` in place of the exception.
unfoldable pub guarded : {A : Type 0} → Result A → A → Result A
guarded (ok a) b = ok a
guarded (throw json_exception) b = ok b
guarded (throw std_exception) b = throw std_exception
guarded (throw non_std) b = throw non_std

-- `ExperimentGroupsResult{}`
abbrev pub no_groups : (J : Type 0) → ExperimentGroupsResult J
no_groups J = record { is_experiment_active = none; groups = [] }

module _ (api : JsonApi) where
  open api use {Json, parse, get_string, get_array}

  pub parse_groups : String → Result (ExperimentGroupsResult Json)
  parse_groups text = do
    parsed ← parse text
    if is_object api parsed then groups_from_json api parsed else ok (no_groups Json)

  unfoldable pub decode_groups : String → Result (ExperimentGroupsResult Json)
  unfolding parse_groups
  decode_groups text = guarded (parse_groups text) (no_groups Json)

  unfoldable pub parse_names : String → Result (List String)
  parse_names text = do
    parsed ← parse text
    if is_array api parsed then get_array get_string parsed else ok []

  unfoldable pub decode_names : String → Result (List String)
  unfolding parse_names
  decode_names text = guarded (parse_names text) []
