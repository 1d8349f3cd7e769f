-- ===== src/Types/RoundTrip.antt =====
-- What survives the trip through the JSON forms of src/types.h.
use statsig_cpp_core.Prelude.{◌^◌, String, ◌≡◌, refl, none, some, Dict, lookup, Result, ok, bind_ok}
use statsig_cpp_core.Json.{JsonApi, JsonLaws}
use statsig_cpp_core.Json.Entries.{get_map-of_object}
use statsig_cpp_core.Sticky.GetOpt.{at-of_object}
use statsig_cpp_core.Sticky.RoundTrip.{InRange, uint64-Decodes}
use statsig_cpp_core.Types.{
  EvaluationDetails, FeatureGate, DynamicConfig, get_at, details_from_json, details_to_json,
  gate_from_json, gate_to_json, config_from_json, config_to_json,
}
use statsig_cpp_core.Types.GetOptional.{get_optional-of_optional, get_optional_missing}

-- The details without the time of receipt.
abbrev pub drop_received : EvaluationDetails → EvaluationDetails
drop_received d = record d { received_at = none }

module _ (api : JsonApi) (laws : JsonLaws api) where
  open api use {Json, of_object, of_string, of_bool, get_string, get_bool}

  pub get_at_found :
      {A : Type 0} (get : Json → Result A) (m : Dict Json) (k : String) (v : Json) {r : Result A}
      → lookup k m ≡ some v
      → get v ≡ r
      → get_at api get (of_object m) k ≡ r
  get_at_found get m k v e h = bind_ok _ (at-of_object api laws m k v e) h

  -- details_to_json writes the time of receipt under receivedAt and details_from_json reads it
  -- under received_at: for all details with a config time in range, the trip through JSON keeps
  -- the config time and the reason, and always loses the time of receipt.
  pub details_round_trip :
      (d : EvaluationDetails)
      → InRange (2 ^ 64) d.lcut
      → details_from_json api (details_to_json api d) ≡ ok (drop_received d)
  unfolding details_from_json details_to_json
  details_round_trip d h =
      bind_ok _
        (get_optional-of_optional api laws _ _ _ "lcut" d.lcut refl
          (λ n e. uint64-Decodes api laws n (h n e)))
        (bind_ok _ (get_optional_missing api laws _ _ "received_at" refl) (
          bind_ok _ (get_at_found get_string _ "reason" _ refl (laws.get_string-of_string d.reason))
            refl))

  -- For every gate with a config time in range, from_json of its to_json returns the gate in all
  -- fields but the time of receipt in its details, which is lost.
  pub gate_round_trip :
      (g : FeatureGate)
      → InRange (2 ^ 64) g.details.lcut
      → gate_from_json api (gate_to_json api g)
        ≡ ok (record g { details = drop_received g.details })
  unfolding gate_from_json gate_to_json
  gate_round_trip g h =
      bind_ok _ (get_at_found get_string _ "name" _ refl (laws.get_string-of_string g.name)) (
        bind_ok _ (get_at_found get_bool _ "value" _ refl (laws.get_bool-of_bool g.value)) (
          bind_ok _
            (get_at_found get_string _ "rule_id" _ refl (laws.get_string-of_string g.rule_id))
            (bind_ok _
              (get_at_found get_string _ "id_type" _ refl (laws.get_string-of_string g.id_type))
              (bind_ok _
                (get_at_found (details_from_json api) _ "details" _ refl
                  (details_round_trip g.details h))
                refl))))

  -- The same for a dynamic config, with the entries of its value as the library stores them.
  pub config_round_trip :
      (c : DynamicConfig Json)
      → InRange (2 ^ 64) c.details.lcut
      → config_from_json api (config_to_json api c)
        ≡ ok (record c { value = api.items (of_object c.value); details = drop_received c.details })
  unfolding config_from_json config_to_json
  config_round_trip c h =
      bind_ok _ (get_at_found get_string _ "name" _ refl (laws.get_string-of_string c.name)) (
        bind_ok _
          (get_at_found (api.get_map ok) _ "value" _ refl (get_map-of_object api laws c.value))
          (bind_ok _
            (get_at_found get_string _ "rule_id" _ refl (laws.get_string-of_string c.rule_id))
            (bind_ok _
              (get_at_found get_string _ "id_type" _ refl (laws.get_string-of_string c.id_type))
              (bind_ok _
                (get_at_found (details_from_json api) _ "details" _ refl
                  (details_round_trip c.details h))
                refl))))
