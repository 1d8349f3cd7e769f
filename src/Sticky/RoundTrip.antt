-- ===== src/Sticky/RoundTrip.antt =====
-- Sticky values survive the trip through their JSON form.
use statsig_cpp_core.Prelude.{
  ℕ, ◌<◌, ◌^◌, String, ◌≡◌, refl, true, false, Option, some, List, ok, bind_ok, Option-cases, inl,
  inr, ◌∙◌, Dict, lookup,
}
use statsig_cpp_core.Json.{JsonApi, JsonLaws, is_null, is_object}
use statsig_cpp_core.Sticky.{
  SecondaryExposure, StickyValues, exposure_to_json, exposure_from_json, exposures_to_json,
  sticky_to_json, sticky_from_json, get_opt, find_json_value, json_or_null,
}
use statsig_cpp_core.Sticky.GetOpt.{
  Decodes, get_opt-of_optional, get_opt_found, at-of_object, array-Decodes, string-Decodes,
}

abbrev pub InRange : ℕ → Option ℕ → Type 0
InRange b o = (n : ℕ) → o ≡ some n → n < b

module _ (api : JsonApi) (laws : JsonLaws api) where
  open api use {Json, of_uint, of_array, of_string, get_string, get_array, get_uint64, get_uint32}

  -- The values that JSON can tell apart: no JSON null stored as a present `json_value`, and numbers
  -- in the range of their C++ types.
  pub record IsStorable (v : StickyValues Json) : Type 0 where
    pub no_null : (j : Json) → v.json_value ≡ some j → is_null api j ≡ false
    pub time : InRange (2 ^ 64) v.time
    pub version : InRange (2 ^ 32) v.config_version

  exposure_round_trip :
      (e : SecondaryExposure) → exposure_from_json api (exposure_to_json api e) ≡ ok e
  unfolding exposure_from_json exposure_to_json
  exposure_round_trip e = bind_ok _ (at-of_object api laws _ "gate" _ refl) (
      bind_ok _ (laws.get_string-of_string e.gate) (
        bind_ok _ (at-of_object api laws _ "gateValue" _ refl) (
          bind_ok _ (laws.get_string-of_string e.gate_value) (
            bind_ok _ (at-of_object api laws _ "ruleID" _ refl)
              (bind_ok _ (laws.get_string-of_string e.rule_id) refl)))))

  pub sticky_is_object : (v : StickyValues Json) → is_object api (sticky_to_json api v) ≡ true
  unfolding sticky_to_json
  sticky_is_object v = rw (laws.kind-of_object _) refl

  find-json_value :
      (v : StickyValues Json)
      → api.find (sticky_to_json api v) "json_value" ≡ some (json_or_null api v.json_value)
  unfolding sticky_to_json
  find-json_value v = laws.find-of_object _ "json_value"

  find_json_value-sticky :
      (v : StickyValues Json)
      → ((j : Json) → v.json_value ≡ some j → is_null api j ≡ false)
      → find_json_value api (sticky_to_json api v) ≡ v.json_value
  unfolding find_json_value
  find_json_value-sticky v h = elim (Option-cases v.json_value) [
    | inl e ↦ rw (find-json_value v, find_json_value, e, laws.kind-null) refl
    | inr (j, e) ↦ rw (find-json_value v, find_json_value, e, h j e) refl
  ]

  exposures-Decodes :
      (es : List SecondaryExposure)
      → Decodes api laws (get_array (exposure_from_json api)) (exposures_to_json api) es
  exposures-Decodes = array-Decodes api laws _ _ exposure_round_trip

  pub uint64-Decodes : (n : ℕ) → n < 2 ^ 64 → Decodes api laws get_uint64 of_uint n
  uint64-Decodes n h = (rw (laws.kind-of_uint n) refl, laws.get_uint64-of_uint n h)

  pub uint32-Decodes : (n : ℕ) → n < 2 ^ 32 → Decodes api laws get_uint32 of_uint n
  uint32-Decodes n h = (rw (laws.kind-of_uint n) refl, laws.get_uint32-of_uint n h)

  optional_string :
      (m : Dict Json) (k : String) (o : Option String)
      → lookup k m ≡ some (api.of_optional of_string o)
      → get_opt api get_string (api.of_object m) k ≡ ok o
  optional_string m k o e =
      get_opt-of_optional api laws get_string of_string m k o e (λ s _. string-Decodes api laws s)

  -- For every sticky evaluation result whose stored JSON value, if any, is not null and whose
  -- numbers are in the range of their C++ types, from_json of its to_json returns it unchanged, in
  -- all ten fields.
  pub sticky_round_trip :
      (v : StickyValues Json) → IsStorable v → sticky_from_json api (sticky_to_json api v) ≡ ok v
  unfolding sticky_from_json sticky_to_json
  sticky_round_trip v h =
      bind_ok _
        (laws.value_found _ _ "value" _ _ (laws.find-of_object _ "value")
          ∙ laws.get_bool-of_bool v.value)
        (bind_ok _ (optional_string _ "rule_id" v.rule_id refl) (
          bind_ok _ (optional_string _ "group_name" v.group_name refl) (
            bind_ok _
              (get_opt_found api laws _ (exposures_to_json api) _ "secondary_exposures" _ refl
                (exposures-Decodes v.secondary_exposures))
              (bind_ok _
                (get_opt-of_optional api laws _ _ _ "undelegated_secondary_exposures" _ refl
                  (λ es _. exposures-Decodes es))
                (bind_ok _ (optional_string _ "config_delegate" v.config_delegate refl) (
                  bind_ok _
                    (get_opt-of_optional api laws _ _ _ "explicit_parameters" _ refl
                      (λ ps _. array-Decodes api laws _ _ laws.get_string-of_string ps))
                    (bind_ok _
                      (get_opt-of_optional api laws _ _ _ "time" _ refl
                        (λ n e. uint64-Decodes n (h.time n e)))
                      (bind_ok _
                        (get_opt-of_optional api laws _ _ _ "config_version" _ refl
                          (λ n e. uint32-Decodes n (h.version n e)))
                        (rw (find_json_value-sticky v h.no_null) refl)))))))))
