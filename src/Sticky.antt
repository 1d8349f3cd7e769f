-- ===== src/Sticky.antt =====
-- src/persistent_storage.h: the sticky evaluation results and their JSON form.
pub mod GetOpt
pub mod RoundTrip
pub mod Persisted
use statsig_cpp_core.Prelude.{
  ℕ, String, Bool, false, Option, none, some, List, [], ◌∷◌, map, Dict, Result, ok, if◌then◌else◌,
}
use statsig_cpp_core.Prelude.Results.{◌>>=◌}
use statsig_cpp_core.Json.{JsonApi, is_null}

pub record SecondaryExposure : Type 0 where
  pub gate : String
  pub gate_value : String
  pub rule_id : String

pub record StickyValues (J : Type 0) : Type 0 where
  pub value : Bool
  pub json_value : Option J
  pub rule_id : Option String
  pub group_name : Option String
  pub secondary_exposures : List SecondaryExposure
  pub undelegated_secondary_exposures : Option (List SecondaryExposure)
  pub config_delegate : Option String
  pub explicit_parameters : Option (List String)
  pub time : Option ℕ
  pub config_version : Option ℕ

-- `StickyValues{}`
abbrev pub default_sticky_values : (J : Type 0) → StickyValues J
default_sticky_values J = record {
  value = false;
  json_value = none;
  rule_id = none;
  group_name = none;
  secondary_exposures = [];
  undelegated_secondary_exposures = none;
  config_delegate = none;
  explicit_parameters = none;
  time = none;
  config_version = none;
}

-- Config name to sticky values.
abbrev pub UserPersistedValues : Type 0 → Type 0
UserPersistedValues J = Dict (StickyValues J)

abbrev pub value_or {ℓ} : {A : Type ℓ} → Option A → A → A
value_or none a = a
value_or (some b) a = b

module _ (api : JsonApi) where
  open api use {
    Json, null, of_bool, of_string, of_uint, of_array, of_object, of_optional, find, at, value,
    get_bool, get_string, get_uint64, get_uint32, get_array,
  }

  unfoldable pub get_opt : {A : Type 0} → (Json → Result A) → Json → String → Result (Option A)
  get_opt get j key = elim (find j key) [
    | none ↦ ok none
    | some it ↦ if is_null api it then ok none else (do a ← get it; ok (some a))
  ]

  pub exposure_to_json : SecondaryExposure → Json
  exposure_to_json e = of_object (
      ("gate", of_string e.gate)
      ∷ ("gateValue", of_string e.gate_value)
      ∷ ("ruleID", of_string e.rule_id)
      ∷ [])

  pub exposure_from_json : Json → Result SecondaryExposure
  exposure_from_json j = do
    g ← at j "gate"
    gate ← get_string g
    v ← at j "gateValue"
    gate_value ← get_string v
    r ← at j "ruleID"
    rule_id ← get_string r
    ok (record { gate = gate; gate_value = gate_value; rule_id = rule_id })

  abbrev pub exposures_to_json : List SecondaryExposure → Json
  exposures_to_json es = of_array (map exposure_to_json es)

  abbrev pub json_or_null : Option Json → Json
  json_or_null none = null
  json_or_null (some j) = j

  unfoldable pub sticky_to_json : StickyValues Json → Json
  sticky_to_json v = of_object (
      ("value", of_bool v.value)
      ∷ ("json_value", json_or_null v.json_value)
      ∷ ("rule_id", of_optional of_string v.rule_id)
      ∷ ("group_name", of_optional of_string v.group_name)
      ∷ ("secondary_exposures", exposures_to_json v.secondary_exposures)
      ∷ (
        "undelegated_secondary_exposures",
        of_optional exposures_to_json v.undelegated_secondary_exposures,
      )
      ∷ ("config_delegate", of_optional of_string v.config_delegate)
      ∷ (
        "explicit_parameters",
        of_optional (λ ps. of_array (map of_string ps)) v.explicit_parameters,
      )
      ∷ ("time", of_optional of_uint v.time)
      ∷ ("config_version", of_optional of_uint v.config_version)
      ∷ [])

  -- The `json_value` entry, unless it is absent or null.
  find_json_value : Json → Option Json
  find_json_value j = elim (find j "json_value") [
    | none ↦ none
    | some it ↦ if is_null api it then none else some it
  ]

  pub sticky_from_json : Json → Result (StickyValues Json)
  sticky_from_json j = do
    b ← value get_bool j "value" false
    let json_value = find_json_value j
    rule_id ← get_opt get_string j "rule_id"
    group_name ← get_opt get_string j "group_name"
    exposures ← get_opt (get_array exposure_from_json) j "secondary_exposures"
    undelegated ← get_opt (get_array exposure_from_json) j "undelegated_secondary_exposures"
    config_delegate ← get_opt get_string j "config_delegate"
    explicit_parameters ← get_opt (get_array get_string) j "explicit_parameters"
    time ← get_opt get_uint64 j "time"
    config_version ← get_opt get_uint32 j "config_version"
    ok (record {
      value = b;
      json_value = json_value;
      rule_id = rule_id;
      group_name = group_name;
      secondary_exposures = value_or exposures [];
      undelegated_secondary_exposures = undelegated;
      config_delegate = config_delegate;
      explicit_parameters = explicit_parameters;
      time = time;
      config_version = config_version;
    })

  -- What the library makes of a map of sticky values.
  unfoldable pub persisted_to_json : UserPersistedValues Json → Json
  persisted_to_json m = of_object (map (λ e. (e.0, sticky_to_json e.1)) m)
