-- ===== src/Tests/Metrics.antt =====
-- A metric with two tags, of which one is no string.
use statsig_cpp_core.Prelude.{[], ◌∷◌, ok, throw, json_exception}
use statsig_cpp_core.Json.{JsonApi, JsonLaws}
use statsig_cpp_core.Json.Tree.{Tree, string, uint, tree_api}
use statsig_cpp_core.Json.Tree.Laws.{tree_laws}

abbrev no_parse : JsonApi
no_parse = tree_api (λ s. throw json_exception) (λ t. ok "{}")

abbrev metric : Tree
metric = no_parse.of_object (
    ("metric", string "hits")
    ∷ ("value", uint 2)
    ∷ ("tags", no_parse.of_object (("env", string "prod") ∷ ("shard", uint 3) ∷ []))
    ∷ [])

abbrev api : JsonApi
api = tree_api (λ s. ok metric) (λ t. ok "{}")

abbrev laws : JsonLaws api
laws = tree_laws (λ s. ok metric) (λ t. ok "{}")
