-- ===== src/Types/Groups/RoundTrip.antt =====
-- What of an experiment's groups survives the trip through their JSON form.
use statsig_cpp_core.Prelude.{
  String, ◌≡◌, refl, ap, ◌∙◌, some, List, [], ◌∷◌, map, Dict, lookup, Result, ok, traverse, bind_ok,
}
use statsig_cpp_core.Json.{JsonApi, JsonLaws}
use statsig_cpp_core.Json.Entries.{get_map-of_object}
use statsig_cpp_core.Types.GetOptional.{get_optional-of_optional}
use statsig_cpp_core.Types.Experiment.Fields.{bool-Decodes}
use statsig_cpp_core.Types.Groups.{
  ExperimentGroup, ExperimentGroupsResult, group_from_json, group_to_json, groups_from_json,
  groups_to_json,
}

-- The group with the entries of its value as the library stores them.
abbrev pub stored : (api : JsonApi) → ExperimentGroup api.Json → ExperimentGroup api.Json
stored api g = record g { return_value = api.items (api.of_object g.return_value) }

module _ (api : JsonApi) (laws : JsonLaws api) where
  open api use {Json, of_object, of_array, of_bool, value, get_bool, get_string, get_array}

  value_entry :
      {A : Type 0} (get : Json → Result A) (m : Dict Json) (k : String) (v : Json) (default : A)
      {r : Result A}
      → lookup k m ≡ some v
      → get v ≡ r
      → value get (of_object m) k default ≡ r
  value_entry get m k v default e h =
      laws.value_found get (of_object m) k default v (laws.find-of_object m k ∙ e) ∙ h

  group_round_trip :
      (g : ExperimentGroup Json) → group_from_json api (group_to_json api g) ≡ ok (stored api g)
  unfolding group_from_json group_to_json
  group_round_trip g =
      bind_ok _
        (value_entry get_string _ "group_name" _ "" refl (laws.get_string-of_string g.group_name))
        (bind_ok _
          (value_entry get_string _ "rule_id" _ "" refl (laws.get_string-of_string g.rule_id))
          (bind_ok _
            (value_entry get_string _ "id_type" _ "" refl (laws.get_string-of_string g.id_type))
            (bind_ok _
              (value_entry (api.get_map ok) _ "return_value" _ [] refl
                (get_map-of_object api laws g.return_value))
              refl)))

  traverse_groups :
      (groups : List (ExperimentGroup Json))
      → traverse (group_from_json api) (map (group_to_json api) groups)
        ≡ ok (map (stored api) groups)
  traverse_groups [] = refl
  traverse_groups (g ∷ groups) =
      bind_ok _ (group_round_trip g) (bind_ok _ (traverse_groups groups) refl)

  get_groups :
      (groups : List (ExperimentGroup Json))
      → get_array (group_from_json api) (of_array (map (group_to_json api) groups))
        ≡ ok (map (stored api) groups)
  get_groups groups =
      laws.get_array_lem (group_from_json api) (of_array (map (group_to_json api) groups))
        (rw (laws.kind-of_array (map (group_to_json api) groups)) refl)
      ∙ ap (traverse (group_from_json api))
          (laws.elements-of_array (map (group_to_json api) groups))
      ∙ traverse_groups groups

  -- For every result of getExperimentGroups, from_json of its to_json returns it, with the flag as
  -- it was, null included, the groups in their order, and the entries of each group's value as the
  -- library stores them.
  pub groups_round_trip :
      (r : ExperimentGroupsResult Json)
      → groups_from_json api (groups_to_json api r)
        ≡ ok (record r { groups = map (stored api) r.groups })
  unfolding groups_from_json groups_to_json
  groups_round_trip r =
      bind_ok _
        (get_optional-of_optional api laws get_bool of_bool _ "is_experiment_active"
          r.is_experiment_active refl (λ b _. bool-Decodes api laws b))
        (bind_ok _
          (value_entry (get_array (group_from_json api)) _ "groups" _ [] refl (get_groups r.groups))
          refl)
