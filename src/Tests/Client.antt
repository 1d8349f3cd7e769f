-- ===== src/Tests/Client.antt =====
-- The client and the layer on concrete states and answers.
use Prim.Native.String.{◌++◌}
use statsig_cpp_core.Prelude.{
  ℕ, ◌+◌, ◌≤◌, String, ◌≡◌, ◌≢◌, refl, true, none, some, List, [], ◌∷◌, Dict, ok, throw,
  json_exception, count, arith, get_elem?, remove_at,
}
use statsig_cpp_core.Json.{JsonApi, JsonLaws}
use statsig_cpp_core.Json.Tree.{Tree, string, uint, null, tree_api}
use statsig_cpp_core.Json.Tree.Laws.{tree_laws}
use statsig_cpp_core.Types.{EvaluationDetails, get_optional, details_from_json}
use statsig_cpp_core.Layer.{Layer, new_layer, parse_layer}
use statsig_cpp_core.Layer.Decode.{Said, Says, layer_decodes}
use statsig_cpp_core.Layer.Exposures.{get_all}
use statsig_cpp_core.Layer.Exposures.Served.{results, exposures, get_all_served}
use statsig_cpp_core.Client.Handles.{
  Statsig, Clients, release, construct, move_assign, Reach, here, next, constructs, move_assigns,
}
use statsig_cpp_core.Client.Handles.Balance.{no_clients, holders, refs_balance, ref_in_use}
use statsig_cpp_core.Client.Events.{event_text}
use statsig_cpp_core.Client.Events.Text.{break_out, event_text_ambiguous}

abbrev second_client : Statsig
second_client = record { ref = 5; sdk_key = "secret-a" }

abbrev first_client : Statsig
first_client = record { ref = 4; sdk_key = "secret-b" }

abbrev two_clients : Clients
two_clients = construct "secret-a" 5 (construct "secret-b" 4 no_clients)

abbrev moved : Clients
moved = move_assign 0 second_client 1 first_client "" two_clients

two_live : two_clients.live ≡ second_client ∷ first_client ∷ []
unfolding construct
two_live = refl

at_two :
    (i : ℕ) (s : Statsig)
    → get_elem? (second_client ∷ first_client ∷ []) i ≡ some s
    → get_elem? two_clients.live i ≡ some s
at_two i s e = rw two_live e

moved_reached : Reach no_clients moved
moved_reached = next (next (next here (constructs "secret-b" 4)) (constructs "secret-a" 5)) (
    move_assigns 0 1 second_client first_client "" (at_two 0 second_client refl)
      (at_two 1 first_client refl))

four : ◌≢◌ {A = ℕ} 4 0
four e = absurd (omega (arith, e))

refs_balance_example : holders 4 moved.live + count 4 moved.released ≡ count 4 moved.issued
refs_balance_example = refs_balance moved 4 moved_reached four

issued_once : count 4 moved.issued ≤ 1
unfolding move_assign construct release
issued_once = omega arith

moved_live : get_elem? moved.live 0 ≡ some first_client
unfolding move_assign construct release
moved_live = refl

ref_in_use_example :
    (count 4 moved.issued ≡ 1)
    × (count 4 moved.released ≡ 0)
    × (holders 4 (remove_at 0 moved.live) ≡ 0)
ref_in_use_example = ref_in_use moved 0 first_client moved_reached moved_live four issued_once

event_text_ambiguous_example :
    event_text ("purchase" ++ (break_out ++ "usd")) [] "" ≡ event_text "purchase" [] "usd"
event_text_ambiguous_example = event_text_ambiguous "purchase" "usd" refl

-- No text is JSON.
abbrev no_text : JsonApi
no_text = tree_api (λ s. throw json_exception) (λ t. ok "{}")

abbrev api : JsonApi
api = no_text

abbrev unset_layer : Layer Tree
unset_layer = new_layer Tree true 77 ""

abbrev sized_layer : Layer Tree
sized_layer = record unset_layer { value = ("size", uint 3) ∷ ("color", string "red") ∷ [] }

abbrev reads : List (String × ℕ)
reads = ("size", 0) ∷ ("color", 1) ∷ ("weight", 2) ∷ []

get_all_served_example :
    get_all api.get_uint64 sized_layer reads []
    ≡ (ok (results api.get_uint64 sized_layer reads), exposures api.get_uint64 sized_layer reads [])
get_all_served_example = get_all_served api.get_uint64 sized_layer reads []

abbrev some_details : EvaluationDetails
some_details = record { lcut = none; received_at = none; reason = "Network" }

-- Any text is a layer without a flag, whose experiment is absent and whose kind of id is null.
abbrev details_entry : Tree
details_entry = no_text.of_object (("reason", string "Network") ∷ [])

abbrev said : Said Tree
said = record {
  rule_id = some "rule";
  id_type = none;
  entries = some (("size", uint 3) ∷ []);
  details = some details_entry;
  experiment = none;
  group = some (some "test");
  active = none;
}

abbrev layer_entries : Dict Tree
layer_entries =
    ("rule_id", string "rule")
    ∷ ("is_experiment_active", null)
    ∷ ("id_type", null)
    ∷ ("__value", no_text.of_object (("size", uint 3) ∷ []))
    ∷ ("details", details_entry)
    ∷ ("group_name", string "test")
    ∷ []

abbrev layer_api : JsonApi
layer_api = tree_api (λ s. ok (no_text.of_object layer_entries)) (λ t. ok "{}")

abbrev layer_laws : JsonLaws layer_api
layer_laws = tree_laws (λ s. ok (no_text.of_object layer_entries)) (λ t. ok "{}")

layer_entries-Says : Says layer_api layer_laws said layer_entries
layer_entries-Says = record {
  rule_id = refl;
  id_type = refl;
  entries = refl;
  details = refl;
  experiment = refl;
  group = refl;
  active = refl;
}

details_decode : details_from_json layer_api details_entry ≡ ok some_details
unfolding details_from_json get_optional
details_decode = refl

layer_decodes_example :
    parse_layer layer_api true 3 "text"
    ≡ ok (record (new_layer Tree true 3 "text") {
      rule_id = "rule";
      group_name = some "test";
      value = ("size", uint 3) ∷ [];
      details = some_details;
    })
layer_decodes_example =
    layer_decodes layer_api layer_laws said layer_entries some_details true 3 "text" refl
      layer_entries-Says (refl, details_decode)
