-- ===== src/Sticky/Persisted.antt =====
-- The JSON form of a map of sticky values.
use statsig_cpp_core.Prelude.{String, ◌≡◌, ◌∙◌, lookup}
use statsig_cpp_core.Json.{JsonApi, JsonLaws}
use statsig_cpp_core.Json.Entries.{map_some, lookup-map}
use statsig_cpp_core.Sticky.{UserPersistedValues, persisted_to_json, sticky_to_json}

-- The entry of a config is its encoded values.
pub find-persisted_to_json :
    (api : JsonApi) (laws : JsonLaws api) (m : UserPersistedValues api.Json) (config : String)
    → api.find (persisted_to_json api m) config ≡ map_some (sticky_to_json api) (lookup config m)
unfolding persisted_to_json
find-persisted_to_json api laws m config =
    laws.find-of_object _ config ∙ lookup-map (sticky_to_json api) config m
