-- ===== src/Types/Experiment/Fields.antt =====
-- What the decoder of an experiment reads in one field, by what is said there.
use statsig_cpp_core.Prelude.{
  String, ◌≡◌, refl, ap, ◌∙◌, Bool, Option, none, some, [], Dict, lookup, Result, ok, bind_ok,
}
use statsig_cpp_core.Json.{JsonApi, JsonLaws, is_some}
use statsig_cpp_core.Json.Entries.{contains-of_object, get_map-of_object, map_some}
use statsig_cpp_core.Sticky.{value_or}
use statsig_cpp_core.Sticky.GetOpt.{Decodes, at-of_object}
use statsig_cpp_core.Types.{EvaluationDetails, get_optional, details_from_json}
use statsig_cpp_core.Types.GetOptional.{
  get_optional-of_optional, get_optional_missing, get_optional_string,
}
use statsig_cpp_core.Types.Experiment.{
  default_details, get_either, pick, decode_value, decode_details,
}

-- A key that may be absent or null.
abbrev pub flat : {A : Type 0} → Option (Option A) → Option A
flat none = none
flat (some o) = o

module _ (api : JsonApi) (laws : JsonLaws api) where
  open api use {Json, of_object, of_optional, of_string, of_bool, get_string, get_bool, get_map}

  abbrev pub entry : {A : Type 0} → (A → Json) → Option (Option A) → Option Json
  entry f o = map_some (of_optional f) o

  pub get_optional_said :
      {A : Type 0} (get : Json → Result A) (f : A → Json) (m : Dict Json) (k : String)
      (o : Option (Option A))
      → lookup k m ≡ entry f o
      → ((a : A) → Decodes api laws get f a)
      → get_optional api get (of_object m) k ≡ ok (flat o)
  get_optional_said get f m k none e h = get_optional_missing api laws get m k e
  get_optional_said get f m k (some o) e h =
      get_optional-of_optional api laws get f m k o e (λ a _. h a)

  module _ {A : Type 0} (get : Json → Result A) (f : A → Json) (m : Dict Json)
      (first second : String) (o : Option (Option A)) (h : (a : A) → Decodes api laws get f a) where
    get_either_of :
        (a b : Option A)
        → get_optional api get (of_object m) first ≡ ok a
        → get_optional api get (of_object m) second ≡ ok b
        → b ≡ none
        → get_either api get (of_object m) first second ≡ ok a
    unfolding get_either
    get_either_of none b e e' n = bind_ok _ e (e' ∙ ap ok n)
    get_either_of (some a) b e e' n = bind_ok _ e refl

    pub get_either_first :
        lookup first m ≡ entry f o
        → lookup second m ≡ none
        → get_either api get (of_object m) first second ≡ ok (flat o)
    get_either_first e n =
        get_either_of (flat o) none (get_optional_said get f m first o e h)
          (get_optional_missing api laws get m second n) refl

    pub get_either_second :
        lookup first m ≡ none
        → lookup second m ≡ entry f o
        → get_either api get (of_object m) first second ≡ ok (flat o)
    unfolding get_either
    get_either_second n e =
        bind_ok _ (get_optional_missing api laws get m first n)
          (get_optional_said get f m second o e h)

  module _ (m : Dict Json) (first second : String) (s : String) where
    pub pick_first :
        lookup first m ≡ some (of_string s) → pick api (of_object m) first second ≡ ok s
    unfolding pick get_either
    pick_first e = bind_ok _ (bind_ok _ (get_optional_string api laws m first s e) refl) refl

  pub pick_either :
      (m : Dict Json) (first second : String) (o : Option String)
      → get_either api get_string (of_object m) first second ≡ ok o
      → pick api (of_object m) first second ≡ ok (value_or o "")
  unfolding pick
  pick_either m first second o e = bind_ok _ e refl

  pub decode_value_found :
      (m entries : Dict Json)
      → lookup "value" m ≡ some (of_object entries)
      → decode_value api (of_object m) ≡ ok (api.items (of_object entries))
  unfolding decode_value
  decode_value_found m entries e =
      rw
        (
          (contains-of_object api laws m "value" _ e).0,
          (contains-of_object api laws m "value" _ e).1,
          laws.kind-of_object entries,
        )
        (bind_ok _ (at-of_object api laws m "value" _ e) (get_map-of_object api laws entries))

  pub decode_details_found :
      (m : Dict Json) (v : Json) (d : EvaluationDetails)
      → lookup "details" m ≡ some v
      → details_from_json api v ≡ ok d
      → decode_details api (of_object m) ≡ ok d
  unfolding decode_details
  decode_details_found m v d e h =
      rw (contains-of_object api laws m "details" v e).0
        (bind_ok _ (at-of_object api laws m "details" v e) h)

  -- The value as said, an absent or null one with no entries, and the details, absent ones as in a
  -- new experiment.
  abbrev pub value_of : Option (Option (Dict Json)) → Dict Json
  value_of none = []
  value_of (some none) = []
  value_of (some (some entries)) = api.items (of_object entries)

  abbrev pub DetailsAre : Option Json → EvaluationDetails → Type 0
  DetailsAre none d = default_details ≡ d
  DetailsAre (some v) d = details_from_json api v ≡ ok d

  pub value_said :
      (m : Dict Json) (o : Option (Option (Dict Json)))
      → lookup "value" m ≡ entry of_object o
      → decode_value api (of_object m) ≡ ok (value_of o)
  unfolding decode_value
  value_said m none e =
      rw (laws.contains-find (of_object m) "value" ∙ ap is_some (laws.find-of_object m "value" ∙ e))
        refl
  value_said m (some none) e =
      rw
        (
          (contains-of_object api laws m "value" _ e).0,
          (contains-of_object api laws m "value" _ e).1,
          laws.of_optional-none of_object,
          laws.kind-null,
        )
        refl
  value_said m (some (some entries)) e =
      decode_value_found m entries (e ∙ ap some (laws.of_optional-some of_object entries))

  pub details_said :
      (m : Dict Json) (o : Option Json) (d : EvaluationDetails)
      → lookup "details" m ≡ o
      → DetailsAre o d
      → decode_details api (of_object m) ≡ ok d
  unfolding decode_details
  details_said m none d e h =
      rw
        (laws.contains-find (of_object m) "details"
          ∙ ap is_some (laws.find-of_object m "details" ∙ e))
        (ap ok h)
  details_said m (some v) d e h = decode_details_found m v d e h

  pub bool-Decodes : (b : Bool) → Decodes api laws get_bool of_bool b
  bool-Decodes b = (rw (laws.kind-of_bool b) refl, laws.get_bool-of_bool b)
