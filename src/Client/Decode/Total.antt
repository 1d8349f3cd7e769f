-- ===== src/Client/Decode/Total.antt =====
-- The decoders behind a `catch (const json::exception &)` return.
use statsig_cpp_core.Prelude.{
  String, ◌≡◌, ◌≢◌, refl, sym, subst, inl, inr, Bool, true, false, not, ◌&&◌, List, [], ◌∷◌, Result,
  ok, throw, json_exception, std_exception, non_std, traverse, if◌then◌else◌, Bool-cases,
  Option-cases,
}
use statsig_cpp_core.Prelude.Results.{◌>>=◌}
use statsig_cpp_core.Json.{JsonApi, JsonLaws, is_object, is_array, is_null, convert_entry}
use statsig_cpp_core.Types.{get_optional}
use statsig_cpp_core.Types.Groups.{ExperimentGroupsResult, group_from_json, groups_from_json}
use statsig_cpp_core.Client.Decode.{
  guarded, no_groups, parse_groups, decode_groups, parse_names, decode_names,
}

-- A result that is no exception, or one of the JSON library.
abbrev pub OnlyJson : {A : Type 0} → Result A → Type 0
OnlyJson (ok a) = Unit
OnlyJson (throw json_exception) = Unit
OnlyJson (throw std_exception) = ⊥
OnlyJson (throw non_std) = ⊥

-- The exceptions that the library documents for `parse` and `get` are its own.
pub record ThrowsJson (api : JsonApi) : Type 0 where
  pub parse : (text : String) → OnlyJson (api.parse text)
  pub get_string : (j : api.Json) → OnlyJson (api.get_string j)
  pub get_bool : (j : api.Json) → OnlyJson (api.get_bool j)

guarded_returns : {A : Type 0} (r : Result A) (b : A) → OnlyJson r → (a : A) × (guarded r b ≡ ok a)
unfolding guarded
guarded_returns (ok a) b h = (a, refl)
guarded_returns (throw json_exception) b h = (b, refl)
guarded_returns (throw std_exception) b h = absurd h
guarded_returns (throw non_std) b h = absurd h

pub guarded-no_json : {A : Type 0} (r : Result A) (b : A) → guarded r b ≢ throw json_exception
unfolding guarded
guarded-no_json (ok a) b e = cc
guarded-no_json (throw json_exception) b e = cc
guarded-no_json (throw std_exception) b e = cc
guarded-no_json (throw non_std) b e = cc

bind-OnlyJson :
    {A B : Type 0} (r : Result A) (f : A → Result B)
    → OnlyJson r
    → ((a : A) → OnlyJson (f a))
    → OnlyJson (r >>= f)
bind-OnlyJson (ok a) f h k = k a
bind-OnlyJson (throw json_exception) f h k = tt
bind-OnlyJson (throw std_exception) f h k = absurd h
bind-OnlyJson (throw non_std) f h k = absurd h

if-OnlyJson :
    {A : Type 0} (b : Bool) (r s : Result A)
    → OnlyJson r
    → OnlyJson s
    → OnlyJson (if b then r else s)
if-OnlyJson true r s h k = h
if-OnlyJson false r s h k = k

traverse-OnlyJson :
    {A B : Type 0} (f : A → Result B)
    → ((a : A) → OnlyJson (f a))
    → (l : List A) → OnlyJson (traverse f l)
traverse-OnlyJson f h [] = tt
traverse-OnlyJson f h (a ∷ l) =
    bind-OnlyJson (f a) _ (h a)
      (λ b. bind-OnlyJson (traverse f l) _ (traverse-OnlyJson f h l) (λ bs. tt))

module _ (api : JsonApi) (laws : JsonLaws api) (only : ThrowsJson api) where
  open api use {Json, get_string, get_bool, get_array, get_map, value}

  value-OnlyJson :
      {A : Type 0} (get : Json → Result A) (j : Json) (k : String) (a : A)
      → ((v : Json) → OnlyJson (get v))
      → OnlyJson (value get j k a)
  value-OnlyJson get j k a h = elim (Bool-cases (is_object api j)) [
    | inr no_object ↦ subst OnlyJson (sym (laws.value_no_object get j k a no_object)) tt
    | inl object ↦ elim (Option-cases (api.find j k)) [
      | inl e ↦ subst OnlyJson (sym (laws.value_missing get j k a object e)) tt
      | inr (v, e) ↦ subst OnlyJson (sym (laws.value_found get j k a v e)) (h v)
    ]
  ]

  get_array-OnlyJson :
      {A : Type 0} (get : Json → Result A) (j : Json)
      → ((v : Json) → OnlyJson (get v))
      → OnlyJson (get_array get j)
  get_array-OnlyJson get j h = elim (Bool-cases (is_array api j)) [
    | inl e ↦
        subst OnlyJson (sym (laws.get_array_lem get j e)) (traverse-OnlyJson get h (api.elements j))
    | inr e ↦ subst OnlyJson (sym (laws.get_array_refuses get j e)) tt
  ]

  get_map-OnlyJson : (j : Json) → OnlyJson (get_map ok j)
  get_map-OnlyJson j = elim (Bool-cases (is_object api j)) [
    | inl e ↦
        subst OnlyJson (sym (laws.get_map_lem ok j e))
          (traverse-OnlyJson (convert_entry ok) (λ entry. tt) (api.items j))
    | inr e ↦ subst OnlyJson (sym (laws.get_map_refuses ok j e)) tt
  ]

  get_optional-OnlyJson :
      {A : Type 0} (get : Json → Result A) (j : Json) (k : String)
      → ((v : Json) → OnlyJson (get v))
      → OnlyJson (get_optional api get j k)
  unfolding get_optional
  get_optional-OnlyJson get j k h =
      if-OnlyJson (api.contains j k && not (is_null api (api.index j k))) _ _
        (bind-OnlyJson (get (api.index j k)) _ (h (api.index j k)) (λ a. tt)) tt

  group-OnlyJson : (j : Json) → OnlyJson (group_from_json api j)
  unfolding group_from_json
  group-OnlyJson j =
      bind-OnlyJson _ _ (value-OnlyJson get_string j "group_name" "" only.get_string) (λ a.
        bind-OnlyJson _ _ (value-OnlyJson get_string j "rule_id" "" only.get_string) (λ b.
          bind-OnlyJson _ _ (value-OnlyJson get_string j "id_type" "" only.get_string) (λ c.
            bind-OnlyJson _ _ (value-OnlyJson (get_map ok) j "return_value" [] get_map-OnlyJson)
              (λ d. tt))))

  groups-OnlyJson : (j : Json) → OnlyJson (groups_from_json api j)
  unfolding groups_from_json
  groups-OnlyJson j =
      bind-OnlyJson _ _ (get_optional-OnlyJson get_bool j "is_experiment_active" only.get_bool)
        (λ a.
          bind-OnlyJson _ _
            (value-OnlyJson (get_array (group_from_json api)) j "groups" []
              (λ v. get_array-OnlyJson (group_from_json api) v group-OnlyJson))
            (λ b. tt))

  pub decode_groups_returns :
      (text : String) → (r : ExperimentGroupsResult Json) × (decode_groups api text ≡ ok r)
  unfolding decode_groups parse_groups
  decode_groups_returns text = guarded_returns (parse_groups api text) (no_groups Json) (
      bind-OnlyJson (api.parse text) _ (only.parse text)
        (λ j. if-OnlyJson (is_object api j) _ _ (groups-OnlyJson j) tt))

  pub decode_names_returns :
      (text : String) → (names : List String) × (decode_names api text ≡ ok names)
  unfolding decode_names parse_names
  decode_names_returns text = guarded_returns (parse_names api text) [] (
      bind-OnlyJson (api.parse text) _ (only.parse text) (λ j.
        if-OnlyJson (is_array api j) _ _ (get_array-OnlyJson get_string j only.get_string) tt))
