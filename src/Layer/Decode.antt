-- ===== src/Layer/Decode.antt =====
-- What `Layer` keeps of the object that the native side says.
use statsig_cpp_core.Prelude.{
  ℕ, String, ◌≡◌, refl, ap, ◌∙◌, Bool, false, Option, none, some, [], Dict, lookup, Result, ok,
  bind_ok,
}
use statsig_cpp_core.Json.{JsonApi, JsonLaws, is_null, is_some}
use statsig_cpp_core.Json.Entries.{get_map-of_object, map_some}
use statsig_cpp_core.Sticky.{value_or}
use statsig_cpp_core.Sticky.GetOpt.{Decodes, at-of_object, string-Decodes}
use statsig_cpp_core.Types.{EvaluationDetails, details_from_json}
use statsig_cpp_core.Types.Experiment.{default_details}
use statsig_cpp_core.Types.GetOptional.{get_optional-of_optional}
use statsig_cpp_core.Types.Experiment.Fields.{flat, bool-Decodes}
use statsig_cpp_core.Layer.{at_unless_null, optional_unless_null, layer_from_json, parse_layer}

-- What the native side says of a layer: `none` is a null, and of the two keys that may be absent it
-- is an absent key, with `some none` for a null.
pub record Said (J : Type 0) : Type 0 where
  pub rule_id : Option String
  pub id_type : Option String
  pub entries : Option (Dict J)
  pub details : Option J
  pub experiment : Option (Option String)
  pub group : Option (Option String)
  pub active : Option Bool

module _ (api : JsonApi) (laws : JsonLaws api) where
  open api use {Json, of_object, of_optional, of_string, of_bool, get_string, get_bool, get_map}

  -- The entries of an object say it, in any order and among any others.
  pub record Says (s : Said Json) (m : Dict Json) : Type 0 where
    pub rule_id : lookup "rule_id" m ≡ some (of_optional of_string s.rule_id)
    pub id_type : lookup "id_type" m ≡ some (of_optional of_string s.id_type)
    pub entries : lookup "__value" m ≡ some (of_optional of_object s.entries)
    pub details : lookup "details" m ≡ some (of_optional (λ v. v) s.details)
    pub experiment :
        lookup "allocated_experiment_name" m ≡ map_some (of_optional of_string) s.experiment
    pub group : lookup "group_name" m ≡ map_some (of_optional of_string) s.group
    pub active : lookup "is_experiment_active" m ≡ some (of_optional of_bool s.active)

  -- The details are said, and decode to these, or are null, and are these as in a new layer.
  abbrev pub DetailsAre : Option Json → EvaluationDetails → Type 0
  DetailsAre none d = default_details ≡ d
  DetailsAre (some v) d = (is_null api v ≡ false) × (details_from_json api v ≡ ok d)

  -- The entries of the value: an object's as the library stores them, and none for a null.
  abbrev pub value_of : Option (Dict Json) → Dict Json
  value_of none = []
  value_of (some entries) = api.items (of_object entries)

  at_unless_null-of_optional :
      {A : Type 0} (get : Json → Result A) (f : A → Json) (m : Dict Json) (k : String)
      (o : Option A) (old : A)
      → lookup k m ≡ some (of_optional f o)
      → ((a : A) → Decodes api laws get f a)
      → at_unless_null api get (of_object m) k old ≡ ok (value_or o old)
  unfolding at_unless_null
  at_unless_null-of_optional get f m k none old e h =
      bind_ok _ (at-of_object api laws m k _ e) (rw (laws.of_optional-none f, laws.kind-null) refl)
  at_unless_null-of_optional get f m k (some a) old e h =
      bind_ok _ (at-of_object api laws m k _ e) (rw (laws.of_optional-some f a, (h a).0) (h a).1)

  at_unless_null_found :
      {A : Type 0} (get : Json → Result A) (m : Dict Json) (k : String) (v : Json) (a old : A)
      → lookup k m ≡ some v
      → is_null api v ≡ false
      → get v ≡ ok a
      → at_unless_null api get (of_object m) k old ≡ ok a
  unfolding at_unless_null
  at_unless_null_found get m k v a old e n h = bind_ok _ (at-of_object api laws m k v e) (rw n h)

  value_found :
      (m : Dict Json) (o : Option (Dict Json))
      → lookup "__value" m ≡ some (of_optional of_object o)
      → at_unless_null api (get_map ok) (of_object m) "__value" [] ≡ ok (value_of o)
  unfolding at_unless_null
  value_found m none e =
      bind_ok _ (at-of_object api laws m "__value" _ e)
        (rw (laws.of_optional-none of_object, laws.kind-null) refl)
  value_found m (some entries) e =
      at_unless_null_found (get_map ok) m "__value" (of_object entries)
        (api.items (of_object entries)) [] (e ∙ ap some (laws.of_optional-some of_object entries))
        (rw (laws.kind-of_object entries) refl) (get_map-of_object api laws entries)

  details_found :
      (m : Dict Json) (o : Option Json) (d : EvaluationDetails)
      → lookup "details" m ≡ some (of_optional (λ v. v) o)
      → DetailsAre o d
      → at_unless_null api (details_from_json api) (of_object m) "details" default_details ≡ ok d
  unfolding at_unless_null
  details_found m none d e h =
      bind_ok _ (at-of_object api laws m "details" _ e)
        (rw (laws.of_optional-none (λ (v : Json). v), laws.kind-null) (ap ok h))
  details_found m (some v) d e h =
      at_unless_null_found (details_from_json api) m "details" v d default_details
        (e ∙ ap some (laws.of_optional-some (λ (w : Json). w) v)) h.0 h.1

  optional_unless_null_found :
      (m : Dict Json) (k : String) (o : Option (Option String))
      → lookup k m ≡ map_some (of_optional of_string) o
      → optional_unless_null api (of_object m) k none ≡ ok (flat o)
  unfolding optional_unless_null
  optional_unless_null_found m k none e =
      rw (laws.contains-find (of_object m) k ∙ ap is_some (laws.find-of_object m k ∙ e)) refl
  optional_unless_null_found m k (some none) e =
      rw
        (
          laws.contains-find (of_object m) k ∙ ap is_some (laws.find-of_object m k ∙ e),
          laws.index_found (of_object m) k _ (laws.find-of_object m k ∙ e),
          laws.of_optional-none of_string,
          laws.kind-null,
        )
        refl
  optional_unless_null_found m k (some (some s)) e =
      rw
        (
          laws.contains-find (of_object m) k ∙ ap is_some (laws.find-of_object m k ∙ e),
          laws.index_found (of_object m) k _ (laws.find-of_object m k ∙ e),
          laws.of_optional-some of_string s,
          laws.kind-of_string s,
        )
        (get_optional-of_optional api laws get_string of_string m k (some s) e
          (λ t _. string-Decodes api laws t))

  -- For every JSON object that has the keys rule_id, id_type, __value, details and
  -- is_experiment_active, each with a value of its type or null, in which
  -- allocated_experiment_name and group_name are texts, null or absent, in any order and with any
  -- other keys, and whose details, unless null, decode: the constructor, on a text that parses to
  -- it, gives a layer with the ref and the text, the rule and the kind of id as said and empty for
  -- a null, the experiment and the group as said and unset for a null or an absent key, the
  -- entries of the value as the library stores them and none for a null, the details as said and
  -- for a null as in a new layer, and the flag as said, or for a null whatever the member held
  -- before, which the constructor does not set.
  pub layer_decodes :
      (s : Said Json) (m : Dict Json) (d : EvaluationDetails) (unset : Bool) (ref : ℕ)
      (text : String)
      → api.parse text ≡ ok (of_object m)
      → Says s m
      → DetailsAre s.details d
      → parse_layer api unset ref text
        ≡ ok (record {
          is_experiment_active = value_or s.active unset;
          rule_id = value_or s.rule_id "";
          id_type = value_or s.id_type "";
          allocated_experiment_name = flat s.experiment;
          group_name = flat s.group;
          value = value_of s.entries;
          details = d;
          statsig_ref = ref;
          json_str = text;
        })
  unfolding parse_layer layer_from_json
  layer_decodes s m d unset ref text parsed says decoded = bind_ok _ parsed (
      bind_ok _
        (at_unless_null-of_optional get_string of_string m "rule_id" s.rule_id _ says.rule_id
          (string-Decodes api laws))
        (bind_ok _
          (at_unless_null-of_optional get_string of_string m "id_type" s.id_type _ says.id_type
            (string-Decodes api laws))
          (bind_ok _ (value_found m s.entries says.entries) (
            bind_ok _ (details_found m s.details d says.details decoded) (
              bind_ok _
                (optional_unless_null_found m "allocated_experiment_name" s.experiment
                  says.experiment)
                (bind_ok _ (optional_unless_null_found m "group_name" s.group says.group) (
                  bind_ok _
                    (at_unless_null-of_optional get_bool of_bool m "is_experiment_active" s.active _
                      says.active (bool-Decodes api laws))
                    refl)))))))
