-- ===== src/Types.antt =====
-- src/types.h: the results of gates, dynamic configs and experiments, and their JSON forms.
pub mod Experiment
pub mod Groups
pub mod Allowed
pub mod GetOptional
pub mod RoundTrip
use statsig_cpp_core.Prelude.{
  ℕ, String, Bool, not, ◌&&◌, Option, none, some, [], ◌∷◌, Dict, Result, ok, if◌then◌else◌,
}
use statsig_cpp_core.Prelude.Results.{◌>>=◌}
use statsig_cpp_core.Json.{JsonApi, is_null}

pub record EvaluationDetails : Type 0 where
  pub lcut : Option ℕ
  pub received_at : Option ℕ
  pub reason : String

pub record FeatureGate : Type 0 where
  pub name : String
  pub value : Bool
  pub rule_id : String
  pub id_type : String
  pub details : EvaluationDetails

pub record DynamicConfig (J : Type 0) : Type 0 where
  pub name : String
  pub value : Dict J
  pub rule_id : String
  pub id_type : String
  pub details : EvaluationDetails

module _ (api : JsonApi) where
  open api use {
    Json, parse, of_bool, of_string, of_uint, of_object, of_optional, contains, index, at, get_bool,
    get_string, get_uint64, get_map,
  }

  unfoldable pub get_optional : {A : Type 0} → (Json → Result A) → Json → String → Result (Option A)
  get_optional get j key =
      if contains j key && not (is_null api (index j key))
      then (do a ← get (index j key); ok (some a))
      else ok none

  -- `j.at(key).get_to(…)`
  abbrev pub get_at : {A : Type 0} → (Json → Result A) → Json → String → Result A
  get_at get j key = do v ← at j key; get v

  unfoldable pub details_from_json : Json → Result EvaluationDetails
  details_from_json j = do
    lcut ← get_optional get_uint64 j "lcut"
    received_at ← get_optional get_uint64 j "received_at"
    reason ← get_at get_string j "reason"
    ok (record { lcut = lcut; received_at = received_at; reason = reason })

  pub details_to_json : EvaluationDetails → Json
  details_to_json d = of_object (
      ("lcut", of_optional of_uint d.lcut)
      ∷ ("reason", of_string d.reason)
      ∷ ("receivedAt", of_optional of_uint d.received_at)
      ∷ [])

  pub gate_from_json : Json → Result FeatureGate
  gate_from_json j = do
    name ← get_at get_string j "name"
    b ← get_at get_bool j "value"
    rule_id ← get_at get_string j "rule_id"
    id_type ← get_at get_string j "id_type"
    details ← get_at details_from_json j "details"
    ok (record { name = name; value = b; rule_id = rule_id; id_type = id_type; details = details })

  pub gate_to_json : FeatureGate → Json
  gate_to_json c = of_object (
      ("name", of_string c.name)
      ∷ ("value", of_bool c.value)
      ∷ ("rule_id", of_string c.rule_id)
      ∷ ("id_type", of_string c.id_type)
      ∷ ("details", details_to_json c.details)
      ∷ [])

  -- `FeatureGate(json_str)`
  pub parse_gate : String → Result FeatureGate
  parse_gate json_str = do j ← parse json_str; gate_from_json j

  pub config_from_json : Json → Result (DynamicConfig Json)
  config_from_json j = do
    name ← get_at get_string j "name"
    m ← get_at (get_map ok) j "value"
    rule_id ← get_at get_string j "rule_id"
    id_type ← get_at get_string j "id_type"
    details ← get_at details_from_json j "details"
    ok (record { name = name; value = m; rule_id = rule_id; id_type = id_type; details = details })

  pub config_to_json : DynamicConfig Json → Json
  config_to_json c = of_object (
      ("name", of_string c.name)
      ∷ ("value", of_object c.value)
      ∷ ("rule_id", of_string c.rule_id)
      ∷ ("id_type", of_string c.id_type)
      ∷ ("details", details_to_json c.details)
      ∷ [])

  -- `DynamicConfig(json_str)`
  pub parse_config : String → Result (DynamicConfig Json)
  parse_config json_str = do j ← parse json_str; config_from_json j
