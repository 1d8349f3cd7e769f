-- ===== src/Tests/Native.antt =====
-- The functions that decode an answer, with a library that hands out one string.
use statsig_cpp_core.Prelude.{
  ℕ, suc, ◌+◌, ◌-◌, ◌≤◌, String, ◌≡◌, refl, true, Option, some, List, [], ◌∷◌, map, ok, throw,
  json_exception, ◌==◌, if◌then◌else◌, one, arith,
}
use statsig_cpp_core.Json.{JsonApi, JsonLaws}
use statsig_cpp_core.Json.Tree.{
  Tree, null, bool, string, uint, int, double, array, object, tree_api,
}
use statsig_cpp_core.Json.Tree.Laws.{tree_laws}
use statsig_cpp_core.Types.Groups.{ExperimentGroupsResult}
use statsig_cpp_core.Layer.{Layer, new_layer}
use statsig_cpp_core.Client.Native.{Native}
use statsig_cpp_core.Client.Decode.Total.{OnlyJson, ThrowsJson}
use statsig_cpp_core.Client.Getters.{get_experiment_groups}
use statsig_cpp_core.Client.Getters.Lists.{Entity, native_list, entity_list}
use statsig_cpp_core.Client.Getters.Lists.Names.{lists_return}
use statsig_cpp_core.Client.Getters.Balanced.{points, StringLaws}

-- The state is how often the string at 40 is handed out; its text is "text".
abbrev take : ℕ → Option ℕ × ℕ
take s = (some 40, suc s)

abbrev take_sized : ℕ → (Option ℕ × ℕ) × ℕ
take_sized s = ((some 40, 4), suc s)

abbrev pub library : Native
library = record {
  State = ℕ;
  c_string = λ p s. "text";
  bytes = λ p len s. "text";
  free_string = λ q s. if q == 40 then s - 1 else s;
  statsig_create = λ key options s. (1, s);
  statsig_release = λ ref s. s;
  statsig_initialize = λ ref f s. s;
  statsig_initialize_with_details = λ ref f s. s;
  statsig_shutdown = λ ref f s. s;
  statsig_flush_events = λ ref f s. s;
  statsig_initialize_blocking = λ ref s. s;
  statsig_shutdown_blocking = λ ref s. s;
  statsig_flush_events_blocking = λ ref s. s;
  statsig_log_event = λ ref user event s. s;
  statsig_override_experiment_by_group_name = λ ref experiment group id s. s;
  statsig_check_gate = λ ref user name options s. (true, s);
  statsig_initialize_with_details_blocking = λ ref. take;
  statsig_get_feature_gate = λ ref user name options. take;
  statsig_get_experiment = λ ref user name options. take;
  statsig_get_dynamic_config = λ ref user name options. take;
  statsig_get_layer = λ ref user name options. take;
  statsig_get_raw_experiment_by_group_name = λ ref name group. take_sized;
  statsig_get_raw_experiment_by_group_id_advanced = λ ref name group. take_sized;
  statsig_get_experiment_groups = λ ref name. take_sized;
  statsig_get_feature_gate_list = λ ref. take_sized;
  statsig_get_dynamic_config_list = λ ref. take_sized;
  statsig_get_experiment_list = λ ref. take_sized;
  statsig_get_autotune_list = λ ref. take_sized;
  statsig_get_layer_list = λ ref. take_sized;
}

abbrev pub out : ℕ → ℕ → ℕ
out p s = if p == 40 then s else 0

out-take : (p s : ℕ) → out p (suc s) ≡ out p s + one p 40
out-take p s = ground arith

out-free : (p q s : ℕ) → 1 ≤ out q s → out p (if q == 40 then s - 1 else s) + one p q ≡ out p s
out-free p q s h = ground (arith, h)

out-take_list :
    (ref : ℕ) (kind : Entity) (p s : ℕ)
    → out p (native_list library ref kind s).1
      ≡ out p s + points p (native_list library ref kind s).0.0
out-take_list ref Entity.feature_gate = out-take
out-take_list ref Entity.dynamic_config = out-take
out-take_list ref Entity.experiment = out-take
out-take_list ref Entity.autotune = out-take
out-take_list ref Entity.layer = out-take

pub library_laws : StringLaws library out
library_laws = record {
  free_string = out-free;
  check_gate = λ ref user a b p s. refl;
  details = λ ref. out-take;
  gate = λ ref user a b. out-take;
  experiment = λ ref user a b. out-take;
  config = λ ref user a b. out-take;
  layer = λ ref user a b. out-take;
  by_name = λ ref a b. out-take;
  by_id = λ ref a b. out-take;
  groups = λ ref a. out-take;
  lists = out-take_list;
}

-- Any text is an array of two names, and any value is written as "{}".
abbrev two_names : List String
two_names = "a_gate" ∷ "b_gate" ∷ []

abbrev no_text : JsonApi
no_text = tree_api (λ s. throw json_exception) (λ t. ok "{}")

abbrev pub api : JsonApi
api = tree_api (λ s. ok (no_text.of_array (map string two_names))) (λ t. ok "{}")

abbrev laws : JsonLaws api
laws = tree_laws (λ s. ok (no_text.of_array (map string two_names))) (λ t. ok "{}")

get_string-OnlyJson : (j : Tree) → OnlyJson (api.get_string j)
get_string-OnlyJson null = tt
get_string-OnlyJson (bool b) = tt
get_string-OnlyJson (string s) = tt
get_string-OnlyJson (uint n) = tt
get_string-OnlyJson (int z) = tt
get_string-OnlyJson (double d) = tt
get_string-OnlyJson (array l) = tt
get_string-OnlyJson (object m) = tt

get_bool-OnlyJson : (j : Tree) → OnlyJson (api.get_bool j)
get_bool-OnlyJson null = tt
get_bool-OnlyJson (bool b) = tt
get_bool-OnlyJson (string s) = tt
get_bool-OnlyJson (uint n) = tt
get_bool-OnlyJson (int z) = tt
get_bool-OnlyJson (double d) = tt
get_bool-OnlyJson (array l) = tt
get_bool-OnlyJson (object m) = tt

only_json : ThrowsJson api
only_json = record {
  parse = λ text. tt;
  get_string = get_string-OnlyJson;
  get_bool = get_bool-OnlyJson;
}

abbrev pub unset_layer : Layer Tree
unset_layer = new_layer Tree true 77 ""

lists_return_example :
    ((names : List String) × ((entity_list library api 3 Entity.layer 0).0 ≡ ok names))
    × ((groups : ExperimentGroupsResult Tree) × ((get_experiment_groups library api 3 "x" 0).0
          ≡ ok groups))
lists_return_example = lists_return library api 3 laws only_json Entity.layer "x" 0
