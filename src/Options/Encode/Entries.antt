-- ===== src/Options/Encode/Entries.antt =====
-- The entry of a key in the JSON object of the options of src/options.h.
use statsig_cpp_core.Prelude.{
  String, ◌≡◌, refl, ap, ◌∙◌, Bool, true, false, Option, none, some, List, [], ◌∷◌, Dict, str_eq,
  if◌then◌else◌, arith,
}
use statsig_cpp_core.Json.{JsonApi, JsonLaws, is_object, is_some}
use statsig_cpp_core.Options.{
  SpecAdapterConfig, StatsigOptionsBuilder, adapter_to_json, base_to_json, flatten_adapter,
  options_to_json,
}

-- The keys of a custom data adapter.
abbrev pub adapter_keys : List String
adapter_keys =
    "spec_adapter_type" ∷ "spec_adapter_url" ∷ "spec_adapter_init_timeout_ms"
    ∷ "spec_adapter_authentication_mode" ∷ "spec_adapter_ca_cert_path"
    ∷ "spec_adapter_client_cert_path" ∷ "spec_adapter_client_key_path" ∷ "spec_adapter_domain_name"
    ∷ []

abbrev pub is_in : String → List String → Bool
is_in k [] = false
is_in k (i ∷ keys) = if str_eq i k then true else is_in k keys

module _ (api : JsonApi) (laws : JsonLaws api) where
  open api use {Json, of_bool, of_string, of_uint, of_object, of_optional, assign, find, get_uint64}

  -- A row of assignments, and the entry of a key after it.
  abbrev pub assigns : Json → Dict Json → Json
  assigns j [] = j
  assigns j ((i, v) ∷ m) = assigns (assign j i v) m

  abbrev pub wins : Dict Json → String → Option Json → Option Json
  wins [] k o = o
  wins ((i, v) ∷ m) k o = wins m k (if str_eq i k then some v else o)

  find-assigns :
      (m : Dict Json) (j : Json) (k : String)
      → is_object api j ≡ true
      → find (assigns j m) k ≡ wins m k (find j k)
  find-assigns [] j k h = refl
  find-assigns ((i, v) ∷ m) j k h =
      find-assigns m (assign j i v) k (laws.kind-assign j i v h)
      ∙ ap (wins m k) (laws.find-assign j i k v h)

  abbrev pub adapter_entries : SpecAdapterConfig → Dict Json
  adapter_entries c =
      ("spec_adapter_type", of_string c.adapter_type)
      ∷ ("spec_adapter_url", of_optional of_string c.specs_url)
      ∷ ("spec_adapter_init_timeout_ms", of_uint c.init_timeout_ms)
      ∷ ("spec_adapter_authentication_mode", of_optional of_string c.authentication_mode)
      ∷ ("spec_adapter_ca_cert_path", of_optional of_string c.ca_cert_path)
      ∷ ("spec_adapter_client_cert_path", of_optional of_string c.client_cert_path)
      ∷ ("spec_adapter_client_key_path", of_optional of_string c.client_key_path)
      ∷ ("spec_adapter_domain_name", of_optional of_string c.domain_name)
      ∷ []

  abbrev pub adapter_wins : Option SpecAdapterConfig → String → Option Json → Option Json
  adapter_wins none k o = o
  adapter_wins (some c) k o = wins (adapter_entries c) k o

  base-is_object : (b : StatsigOptionsBuilder) → is_object api (base_to_json api b) ≡ true
  unfolding base_to_json
  base-is_object b = rw (laws.kind-of_object _) refl

  find-flatten_adapter :
      (j : Json) (o : Option SpecAdapterConfig) (k : String)
      → is_object api j ≡ true
      → find (flatten_adapter api j o) k ≡ adapter_wins o k (find j k)
  unfolding flatten_adapter adapter_to_json
  find-flatten_adapter j none k h = refl
  find-flatten_adapter j (some c) k h = find-assigns (adapter_entries c) j k h

  pub find-options :
      (b : StatsigOptionsBuilder) (k : String)
      → find (options_to_json api b) k ≡ adapter_wins b.spec_adapter k (find (base_to_json api b) k)
  unfolding options_to_json
  find-options b k = find-flatten_adapter (base_to_json api b) b.spec_adapter k (base-is_object b)

  pub wins-others :
      (c : SpecAdapterConfig) (k : String) (o : Option Json)
      → is_in k adapter_keys ≡ false
      → wins (adapter_entries c) k o ≡ o
  wins-others c k o h = ground arith

  pub contains-options :
      (b : StatsigOptionsBuilder) (k : String)
      → api.contains (options_to_json api b) k
        ≡ is_some (adapter_wins b.spec_adapter k (find (base_to_json api b) k))
  contains-options b k = laws.contains-find _ k ∙ ap is_some (find-options b k)
