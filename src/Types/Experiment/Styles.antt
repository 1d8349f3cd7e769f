-- ===== src/Types/Experiment/Styles.antt =====
-- Both spellings of the keys are decoded to the same experiment.
use statsig_cpp_core.Prelude.{
  String, ◌≡◌, refl, Bool, false, Option, none, Dict, lookup, ok, bind_ok,
}
use statsig_cpp_core.Json.{JsonApi, JsonLaws}
use statsig_cpp_core.Sticky.{value_or}
use statsig_cpp_core.Sticky.GetOpt.{string-Decodes}
use statsig_cpp_core.Types.{EvaluationDetails}
use statsig_cpp_core.Types.Experiment.{Experiment, get_either, experiment_from_json}
use statsig_cpp_core.Types.Experiment.Fields.{
  flat, entry, get_optional_said, get_either_first, get_either_second, pick_either, value_of,
  value_said, DetailsAre, details_said, bool-Decodes,
}

-- What the native side says of an experiment, under either spelling of the keys: `none` is an absent
-- key, and `some none` a null.
pub record Said (J : Type 0) : Type 0 where
  pub name : Option (Option String)
  pub value : Option (Option (Dict J))
  pub rule_id : Option (Option String)
  pub id_type : Option (Option String)
  pub group_name : Option (Option String)
  pub active : Option (Option Bool)
  pub details : Option J

-- The keys that have two spellings.
pub record Keys : Type 0 where
  pub rule_id : String
  pub id_type : String
  pub group_name : String
  pub active : String

abbrev pub snake_keys : Keys
snake_keys = record {
  rule_id = "rule_id";
  id_type = "id_type";
  group_name = "group_name";
  active = "is_experiment_active";
}

abbrev pub camel_keys : Keys
camel_keys = record {
  rule_id = "ruleID";
  id_type = "idType";
  group_name = "groupName";
  active = "isExperimentActive";
}

module _ (api : JsonApi) (laws : JsonLaws api) where
  open api use {Json, of_object, of_optional, of_string, of_bool, get_string, get_bool, get_map}

  -- The entries of an object say it with these keys, and have none of the others; they are in any
  -- order and among any entries for further keys.
  pub record Says (s : Said Json) (keys others : Keys) (m : Dict Json) : Type 0 where
    pub name : lookup "name" m ≡ entry api laws of_string s.name
    pub value : lookup "value" m ≡ entry api laws of_object s.value
    pub details : lookup "details" m ≡ s.details
    pub rule_id : lookup keys.rule_id m ≡ entry api laws of_string s.rule_id
    pub id_type : lookup keys.id_type m ≡ entry api laws of_string s.id_type
    pub group_name : lookup keys.group_name m ≡ entry api laws of_string s.group_name
    pub active : lookup keys.active m ≡ entry api laws of_bool s.active
    pub no_rule_id : lookup others.rule_id m ≡ none
    pub no_id_type : lookup others.id_type m ≡ none
    pub no_group_name : lookup others.group_name m ≡ none
    pub no_active : lookup others.active m ≡ none

  -- What is said, as an experiment: an absent or null text is empty, and an absent or null flag is
  -- false.
  abbrev pub experiment_of : Said Json → EvaluationDetails → Experiment Json
  experiment_of s d = record {
    name = value_or (flat s.name) "";
    value = value_of api laws s.value;
    rule_id = value_or (flat s.rule_id) "";
    id_type = value_or (flat s.id_type) "";
    group_name = flat s.group_name;
    details = d;
    is_experiment_active = value_or (flat s.active) false;
  }

  -- The object is decoded, whichever of the two spellings `get_either` finds the four fields under.
  decoded :
      (s : Said Json) (d : EvaluationDetails) (m : Dict Json)
      → lookup "name" m ≡ entry api laws of_string s.name
      → lookup "value" m ≡ entry api laws of_object s.value
      → lookup "details" m ≡ s.details
      → DetailsAre api laws s.details d
      → get_either api get_string (of_object m) "rule_id" "ruleID" ≡ ok (flat s.rule_id)
      → get_either api get_string (of_object m) "id_type" "idType" ≡ ok (flat s.id_type)
      → get_either api get_string (of_object m) "group_name" "groupName" ≡ ok (flat s.group_name)
      → get_either api get_bool (of_object m) "is_experiment_active" "isExperimentActive"
        ≡ ok (flat s.active)
      → experiment_from_json api (of_object m) ≡ ok (experiment_of s d)
  unfolding experiment_from_json
  decoded s d m name value_ details are rule id group active =
      bind_ok _
        (get_optional_said api laws get_string of_string m "name" s.name name
          (string-Decodes api laws))
        (bind_ok _ (value_said api laws m s.value value_) (
          bind_ok _ (pick_either api laws m "rule_id" "ruleID" (flat s.rule_id) rule) (
            bind_ok _ (pick_either api laws m "id_type" "idType" (flat s.id_type) id) (
              bind_ok _ (details_said api laws m s.details d details are)
                (bind_ok _ group (bind_ok _ active refl))))))

  snake_style :
      (s : Said Json) (d : EvaluationDetails) (m : Dict Json)
      → Says s snake_keys camel_keys m
      → DetailsAre api laws s.details d
      → experiment_from_json api (of_object m) ≡ ok (experiment_of s d)
  snake_style s d m h are =
      let texts = string-Decodes api laws in
      decoded s d m h.name h.value h.details are
        (get_either_first api laws get_string of_string m _ _ s.rule_id texts h.rule_id
          h.no_rule_id)
        (get_either_first api laws get_string of_string m _ _ s.id_type texts h.id_type
          h.no_id_type)
        (get_either_first api laws get_string of_string m _ _ s.group_name texts h.group_name
          h.no_group_name)
        (get_either_first api laws get_bool of_bool m _ _ s.active (bool-Decodes api laws) h.active
          h.no_active)

  camel_style :
      (s : Said Json) (d : EvaluationDetails) (m : Dict Json)
      → Says s camel_keys snake_keys m
      → DetailsAre api laws s.details d
      → experiment_from_json api (of_object m) ≡ ok (experiment_of s d)
  camel_style s d m h are =
      let texts = string-Decodes api laws in
      decoded s d m h.name h.value h.details are
        (get_either_second api laws get_string of_string m _ _ s.rule_id texts h.no_rule_id
          h.rule_id)
        (get_either_second api laws get_string of_string m _ _ s.id_type texts h.no_id_type
          h.id_type)
        (get_either_second api laws get_string of_string m _ _ s.group_name texts h.no_group_name
          h.group_name)
        (get_either_second api laws get_bool of_bool m _ _ s.active (bool-Decodes api laws)
          h.no_active h.active)

  -- For everything that is said of an experiment, where each key may be absent and each but the
  -- details null, the value is otherwise an object, and the details, if there are some, decode: a
  -- JSON object that says it with the snake_case keys and one that says it with the camelCase
  -- keys, each in any order and without the keys of the other spelling, are decoded to the same
  -- experiment: every field as said, with the entries of the value as the library stores them, no
  -- entries for a null or absent value, an empty text for a null or absent name, rule or kind of
  -- id, no group name for a null or absent one, the details of a new experiment for absent ones,
  -- and false for a null or absent flag.
  pub experiment_styles :
      (s : Said Json) (d : EvaluationDetails) (snake camel : Dict Json)
      → Says s snake_keys camel_keys snake
      → Says s camel_keys snake_keys camel
      → DetailsAre api laws s.details d
      → (experiment_from_json api (of_object snake) ≡ ok (experiment_of s d))
        × (experiment_from_json api (of_object camel) ≡ ok (experiment_of s d))
  experiment_styles s d snake camel h h' are =
      (snake_style s d snake h are, camel_style s d camel h' are)
