-- ===== src/Client/Getters/Lists/Names.antt =====
-- What the entity lists and `getExperimentGroups` make of an answer.
use statsig_cpp_core.Prelude.{
  ℕ, String, ◌≡◌, ◌≢◌, refl, ap, sym, ◌∙◌, false, Option, none, some, List, [], map, Result, ok,
  throw, json_exception, ◌⊎◌, inl, inr,
}
use statsig_cpp_core.Json.{JsonApi, JsonLaws, is_array}
use statsig_cpp_core.Sticky.GetOpt.{array-Decodes}
use statsig_cpp_core.Types.Groups.{ExperimentGroupsResult}
use statsig_cpp_core.Client.Native.{Native}
use statsig_cpp_core.Client.Decode.{guarded, no_groups, decode_groups, decode_names, parse_names}
use statsig_cpp_core.Client.Decode.Total.{
  ThrowsJson, guarded-no_json, decode_groups_returns, decode_names_returns,
}
use statsig_cpp_core.Client.Getters.{answered_sized, get_experiment_groups}
use statsig_cpp_core.Client.Getters.Lists.{
  list_of, Entity, native_list, entity_list, get_feature_gate_list, get_dynamic_config_list,
  get_experiment_list, get_autotune_list, get_layer_list,
}

-- One call of the library; of a string that this returns, as many bytes are read as it says, the
-- string is freed, and the text is decoded.
abbrev pub sized_transaction :
    (n : Native) {A : Type 0}
    → (String → Result A)
    → A
    → (Option ℕ × ℕ) × n.State
    → Result A × n.State
sized_transaction n decode default ((none, len), s) = (ok default, s)
sized_transaction n decode default ((some p, len), s) =
    (decode (n.bytes p len s), n.free_string p s)

answered_sized-transaction :
    (n : Native) {A : Type 0} (decode : String → Result A) (default : A) (result : Option ℕ × ℕ)
    (s : n.State)
    → answered_sized n decode default result s ≡ sized_transaction n decode default (result, s)
unfolding answered_sized
answered_sized-transaction n decode default (none, len) s = refl
answered_sized-transaction n decode default (some p, len) s = refl

module _ (n : Native) (api : JsonApi) (ref : ℕ) where
  names_answered :
      (kind : Entity) (s : n.State)
      → answered_sized n
          (decode_names api)
          []
          (native_list n ref kind s).0
          (native_list n ref kind s).1
        ≡ sized_transaction n (decode_names api) [] (native_list n ref kind s)
  names_answered kind s =
      answered_sized-transaction n (decode_names api) [] (native_list n ref kind s).0
        (native_list n ref kind s).1

  groups_answered :
      (name : String) (s : n.State)
      → get_experiment_groups n api ref name s
        ≡ sized_transaction n
            (decode_groups api)
            (no_groups api.Json)
            (n.statsig_get_experiment_groups ref name s)
  unfolding get_experiment_groups
  groups_answered name s =
      let r : (Option ℕ × ℕ) × n.State = n.statsig_get_experiment_groups ref name s in
      answered_sized-transaction n (decode_groups api) (no_groups api.Json) r.0 r.1

  entity_list-list_of :
      (kind : Entity) (s : n.State)
      → entity_list n api ref kind s
        ≡ sized_transaction n (decode_names api) [] (native_list n ref kind s)
  unfolding get_feature_gate_list get_dynamic_config_list get_experiment_list get_autotune_list
      get_layer_list list_of
  entity_list-list_of Entity.feature_gate s = names_answered Entity.feature_gate s
  entity_list-list_of Entity.dynamic_config s = names_answered Entity.dynamic_config s
  entity_list-list_of Entity.experiment s = names_answered Entity.experiment s
  entity_list-list_of Entity.autotune s = names_answered Entity.autotune s
  entity_list-list_of Entity.layer s = names_answered Entity.layer s

  -- An entity list of a string that the library returns.
  entity_list_found :
      (kind : Entity) (p len : ℕ) (s s' : n.State)
      → native_list n ref kind s ≡ ((some p, len), s')
      → entity_list n api ref kind s ≡ (decode_names api (n.bytes p len s'), n.free_string p s')
  entity_list_found kind p len s s' e =
      entity_list-list_of kind s ∙ ap (sized_transaction n (decode_names api) []) e

  decode_names_found :
      (laws : JsonLaws api) (text : String) (names : List String)
      → api.parse text ≡ ok (api.of_array (map api.of_string names))
      → decode_names api text ≡ ok names
  unfolding decode_names parse_names guarded
  decode_names_found laws text names e =
      rw
        (
          e,
          laws.kind-of_array (map api.of_string names),
          (array-Decodes api laws api.get_string api.of_string laws.get_string-of_string names).1,
        )
        refl

  decode_names_malformed :
      (text : String)
      → (api.parse text ≡ throw json_exception)
        ⊎ ((j : api.Json) × (api.parse text ≡ ok j) × (is_array api j ≡ false))
      → decode_names api text ≡ ok []
  unfolding decode_names parse_names guarded
  decode_names_malformed text (inl e) = rw e refl
  decode_names_malformed text (inr (j, e, no_array)) = rw (e, no_array) refl

  -- If the native library answers one of the five entity lists with a string whose text parses to
  -- an array of strings, the list has these strings, in their order, and the string is freed once.
  pub get_list_names :
      (laws : JsonLaws api) (kind : Entity) (p len : ℕ) (names : List String) (s s' : n.State)
      → native_list n ref kind s ≡ ((some p, len), s')
      → api.parse (n.bytes p len s') ≡ ok (api.of_array (map api.of_string names))
      → entity_list n api ref kind s ≡ (ok names, n.free_string p s')
  get_list_names laws kind p len names s s' e parsed =
      entity_list_found kind p len s s' e
      ∙ ap (λ r. (r, n.free_string p s')) (decode_names_found laws (n.bytes p len s') names parsed)

  pub get_list_malformed :
      (kind : Entity) (p len : ℕ) (s s' : n.State)
      → native_list n ref kind s ≡ ((some p, len), s')
      → (api.parse (n.bytes p len s') ≡ throw json_exception)
        ⊎ ((j : api.Json) × (api.parse (n.bytes p len s') ≡ ok j) × (is_array api j ≡ false))
      → entity_list n api ref kind s ≡ (ok [], n.free_string p s')
  get_list_malformed kind p len s s' e h =
      entity_list_found kind p len s s' e
      ∙ ap (λ r. (r, n.free_string p s')) (decode_names_malformed (n.bytes p len s') h)

  names_returns :
      (laws : JsonLaws api) (only : ThrowsJson api) (result : (Option ℕ × ℕ) × n.State)
      → (names : List String) × ((sized_transaction n (decode_names api) [] result).0 ≡ ok names)
  names_returns laws only ((none, len), s) = ([], refl)
  names_returns laws only ((some p, len), s) = decode_names_returns api laws only (n.bytes p len s)

  groups_returns :
      (laws : JsonLaws api) (only : ThrowsJson api) (result : (Option ℕ × ℕ) × n.State)
      → (groups : ExperimentGroupsResult api.Json) × ((sized_transaction n
            (decode_groups api)
            (no_groups api.Json)
            result).0
          ≡ ok groups)
  groups_returns laws only ((none, len), s) = (no_groups api.Json, refl)
  groups_returns laws only ((some p, len), s) =
      decode_groups_returns api laws only (n.bytes p len s)

  -- If parsing and converting throw nothing but exceptions of the JSON library, then each of the
  -- five entity lists and getExperimentGroups returns a value, whatever the native library
  -- answers.
  pub lists_return :
      (laws : JsonLaws api) (only : ThrowsJson api) (kind : Entity) (name : String) (s : n.State)
      → ((names : List String) × ((entity_list n api ref kind s).0 ≡ ok names))
        × ((groups : ExperimentGroupsResult api.Json) × ((get_experiment_groups n api ref name s).0
              ≡ ok groups))
  lists_return laws only kind name s =
      let (names, e) = names_returns laws only (native_list n ref kind s) in
      let (groups, f) = groups_returns laws only (n.statsig_get_experiment_groups ref name s) in
      (
        (names, ap (λ r. r.0) (entity_list-list_of kind s) ∙ e),
        (groups, ap (λ r. r.0) (groups_answered name s) ∙ f),
      )

  names_no_json :
      (result : (Option ℕ × ℕ) × n.State)
      → (sized_transaction n (decode_names api) [] result).0 ≢ throw json_exception
  unfolding decode_names
  names_no_json ((none, len), s) e = cc
  names_no_json ((some p, len), s) e = guarded-no_json _ [] e

  groups_no_json :
      (result : (Option ℕ × ℕ) × n.State)
      → (sized_transaction n (decode_groups api) (no_groups api.Json) result).0
        ≢ throw json_exception
  unfolding decode_groups
  groups_no_json ((none, len), s) e = cc
  groups_no_json ((some p, len), s) e = guarded-no_json _ (no_groups api.Json) e

  pub lists_never_json :
      (kind : Entity) (name : String) (s : n.State)
      → ((entity_list n api ref kind s).0 ≢ throw json_exception)
        × ((get_experiment_groups n api ref name s).0 ≢ throw json_exception)
  lists_never_json kind name s = (
    λ e.
        names_no_json (native_list n ref kind s)
          (sym (ap (λ r. r.0) (entity_list-list_of kind s)) ∙ e),
    λ e.
        groups_no_json (n.statsig_get_experiment_groups ref name s)
          (sym (ap (λ r. r.0) (groups_answered name s)) ∙ e),
  )
