-- ===== src/Options.antt =====
-- src/options.h and src/options.cpp: the options of the SDK and of the single calls, and the JSON
-- objects that carry them to the native side.
pub mod Encode
pub mod Persisted
use statsig_cpp_core.Prelude.{
  ℕ, String, Bool, false, Option, none, some, [], ◌∷◌, Result, ok, ◌==◌, if◌then◌else◌,
}
use statsig_cpp_core.Prelude.Results.{◌>>=◌}
use statsig_cpp_core.Json.{JsonApi}
use statsig_cpp_core.Sticky.{UserPersistedValues, persisted_to_json, value_or}

abbrev pub default_init_timeout_ms : ℕ
default_init_timeout_ms = 3000

pub record SpecAdapterConfig : Type 0 where
  pub adapter_type : String
  pub specs_url : Option String
  pub init_timeout_ms : ℕ
  pub authentication_mode : Option String
  pub ca_cert_path : Option String
  pub client_cert_path : Option String
  pub client_key_path : Option String
  pub domain_name : Option String

-- The adapter types and the authentication modes that the struct names.
abbrev pub type_network_grpc_websocket : String
type_network_grpc_websocket = "network_grpc_websocket"

abbrev pub type_network_http : String
type_network_http = "network_http"

abbrev pub auth_none : String
auth_none = "none"

abbrev pub auth_tls : String
auth_tls = "tls"

abbrev pub auth_mtls : String
auth_mtls = "mtls"

-- The constructor, with the arguments in their order.
unfoldable pub spec_adapter_config :
    String
    → Option String
    → Option ℕ
    → Option String
    → Option String
    → Option String
    → Option String
    → Option String
    → SpecAdapterConfig
spec_adapter_config adapter_type specs_url timeout mode ca_cert client_cert client_key domain =
    record {
      adapter_type = adapter_type;
      specs_url = specs_url;
      init_timeout_ms = value_or timeout default_init_timeout_ms;
      authentication_mode = mode;
      ca_cert_path = ca_cert;
      client_cert_path = client_cert;
      client_key_path = client_key;
      domain_name = domain;
    }

pub record StatsigOptionsBuilder : Type 0 where
  pub specs_url : Option String
  pub id_lists_url : Option String
  pub log_event_url : Option String
  pub output_log_level : Option String
  pub environment : Option String
  pub enable_id_lists : Bool
  pub enable_dcs_deltas : Bool
  pub disable_all_logging : Bool
  pub disable_country_lookup : Bool
  pub disable_network : Bool
  pub exposure_dedupe_max_keys : Option ℕ
  pub persistent_storage_ref : Option ℕ
  pub observability_client_ref : Option ℕ
  pub spec_adapter : Option SpecAdapterConfig

-- `StatsigOptionsBuilder()`
abbrev pub default_options : StatsigOptionsBuilder
default_options = record {
  specs_url = none;
  id_lists_url = none;
  log_event_url = none;
  output_log_level = none;
  environment = none;
  enable_id_lists = false;
  enable_dcs_deltas = false;
  disable_all_logging = false;
  disable_country_lookup = false;
  disable_network = false;
  exposure_dedupe_max_keys = none;
  persistent_storage_ref = none;
  observability_client_ref = none;
  spec_adapter = none;
}

-- The setters take the ref of the storage or the client.
unfoldable pub set_persistent_storage : ℕ → StatsigOptionsBuilder → StatsigOptionsBuilder
set_persistent_storage ref b = record b {
  persistent_storage_ref = if ref == 0 then none else some ref;
}

pub set_observability_client : ℕ → StatsigOptionsBuilder → StatsigOptionsBuilder
set_observability_client ref b = record b {
  observability_client_ref = if ref == 0 then none else some ref;
}

pub set_spec_adapter_config : SpecAdapterConfig → StatsigOptionsBuilder → StatsigOptionsBuilder
set_spec_adapter_config config b = record b { spec_adapter = some config }

pub record CheckGateOptions : Type 0 where
  pub disable_exposure_logging : Bool

pub record GetDynamicConfigOptions : Type 0 where
  pub disable_exposure_logging : Bool

pub record GetExperimentOptions (J : Type 0) : Type 0 where
  pub disable_exposure_logging : Bool
  pub enforce_overrides : Bool
  pub enforce_targeting : Bool
  pub user_persisted_values : Option (UserPersistedValues J)

pub record GetLayerOptions (J : Type 0) : Type 0 where
  pub disable_exposure_logging : Bool
  pub enforce_overrides : Bool
  pub enforce_targeting : Bool
  pub user_persisted_values : Option (UserPersistedValues J)

module _ (api : JsonApi) where
  open api use {Json, dump, of_bool, of_string, of_uint, of_object, of_optional, assign}

  pub adapter_to_json : Json → SpecAdapterConfig → Json
  adapter_to_json j0 c =
      let j1 = assign j0 "spec_adapter_type" (of_string c.adapter_type) in
      let j2 = assign j1 "spec_adapter_url" (of_optional of_string c.specs_url) in
      let j3 = assign j2 "spec_adapter_init_timeout_ms" (of_uint c.init_timeout_ms) in
      let j4 =
        assign j3 "spec_adapter_authentication_mode"
          (of_optional of_string c.authentication_mode) in
      let j5 = assign j4 "spec_adapter_ca_cert_path" (of_optional of_string c.ca_cert_path) in
      let j6 =
        assign j5 "spec_adapter_client_cert_path" (of_optional of_string c.client_cert_path) in
      let j7 = assign j6 "spec_adapter_client_key_path" (of_optional of_string c.client_key_path) in
      assign j7 "spec_adapter_domain_name" (of_optional of_string c.domain_name)

  unfoldable pub base_to_json : StatsigOptionsBuilder → Json
  base_to_json b = of_object (
      ("specs_url", of_optional of_string b.specs_url)
      ∷ ("id_lists_url", of_optional of_string b.id_lists_url)
      ∷ ("log_event_url", of_optional of_string b.log_event_url)
      ∷ ("environment", of_optional of_string b.environment)
      ∷ ("output_log_level", of_optional of_string b.output_log_level)
      ∷ ("enable_id_lists", of_bool b.enable_id_lists)
      ∷ ("enable_dcs_deltas", of_bool b.enable_dcs_deltas)
      ∷ ("disable_all_logging", of_bool b.disable_all_logging)
      ∷ ("disable_country_lookup", of_bool b.disable_country_lookup)
      ∷ ("disable_network", of_bool b.disable_network)
      ∷ ("exposure_dedupe_max_keys", of_optional of_uint b.exposure_dedupe_max_keys)
      ∷ ("persistent_storage_ref", of_optional of_uint b.persistent_storage_ref)
      ∷ ("observability_client_ref", of_optional of_uint b.observability_client_ref)
      ∷ [])

  unfoldable pub flatten_adapter : Json → Option SpecAdapterConfig → Json
  flatten_adapter j none = j
  flatten_adapter j (some c) = adapter_to_json j c

  unfoldable pub options_to_json : StatsigOptionsBuilder → Json
  options_to_json b = flatten_adapter (base_to_json b) b.spec_adapter

  -- `build()`: the ref that `statsig_options_create_from_data` gives for the text.
  unfoldable pub build_options : (String → ℕ) → StatsigOptionsBuilder → Result ℕ
  build_options create b = do serialized ← dump (options_to_json b); ok (create serialized)

  pub gate_options_to_json : CheckGateOptions → Json
  gate_options_to_json b =
      of_object (("disable_exposure_logging", of_bool b.disable_exposure_logging) ∷ [])

  pub config_options_to_json : GetDynamicConfigOptions → Json
  config_options_to_json b =
      of_object (("disable_exposure_logging", of_bool b.disable_exposure_logging) ∷ [])

  assign_persisted : Json → Option (UserPersistedValues Json) → Json
  assign_persisted j none = j
  assign_persisted j (some m) = assign j "user_persisted_values" (persisted_to_json api m)

  pub experiment_options_to_json : GetExperimentOptions Json → Json
  experiment_options_to_json b =
      assign_persisted
        (of_object (
          ("disable_exposure_logging", of_bool b.disable_exposure_logging)
          ∷ ("enforce_overrides", of_bool b.enforce_overrides)
          ∷ ("enforce_targeting", of_bool b.enforce_targeting)
          ∷ []))
        b.user_persisted_values

  pub layer_options_to_json : GetLayerOptions Json → Json
  layer_options_to_json b =
      assign_persisted
        (of_object (
          ("disable_exposure_logging", of_bool b.disable_exposure_logging)
          ∷ ("enforce_overrides", of_bool b.enforce_overrides)
          ∷ ("enforce_targeting", of_bool b.enforce_targeting)
          ∷ []))
        b.user_persisted_values
