-- ===== src/Types/GetOptional.antt =====
-- `get_optional` of src/types.h and `get_opt` of src/persistent_storage.h are one function.
use statsig_cpp_core.Prelude.{
  String, ◌≡◌, refl, ap, ◌∙◌, inl, inr, Option, none, some, Dict, lookup, Result, ok, Bool-cases,
  Option-cases,
}
use statsig_cpp_core.Json.{JsonApi, JsonLaws, is_null, is_some}
use statsig_cpp_core.Sticky.{get_opt}
use statsig_cpp_core.Sticky.GetOpt.{Decodes, get_opt-of_optional, get_opt_found, string-Decodes}
use statsig_cpp_core.Types.{get_optional}

module _ (api : JsonApi) (laws : JsonLaws api) where
  open api use {Json, of_object, of_optional, of_string, get_string, find}

  -- For every type, value and key, get_optional of src/types.h, which asks contains and reads
  -- j[key], gives what get_opt of src/persistent_storage.h gives, which uses find: also for a
  -- null, for a missing key, for a value that is no object, and for one that does not decode, on
  -- which both throw the same.
  pub get_optional-eq-get_opt :
      {A : Type 0} (get : Json → Result A) (j : Json) (k : String)
      → get_optional api get j k ≡ get_opt api get j k
  unfolding get_optional get_opt
  get_optional-eq-get_opt get j k = elim (Option-cases (find j k)) [
    | inl e ↦ rw (laws.contains-find j k ∙ ap is_some e, e, get_opt) refl
    | inr (v, e) ↦ elim (Bool-cases (is_null api v)) [
      | inl n ↦
          rw (laws.contains-find j k ∙ ap is_some e, laws.index_found j k v e, e, get_opt, n) refl
      | inr n ↦
          rw (laws.contains-find j k ∙ ap is_some e, laws.index_found j k v e, e, get_opt, n) refl
    ]
  ]

  pub get_optional-of_optional :
      {A : Type 0} (get : Json → Result A) (f : A → Json) (m : Dict Json) (k : String)
      (o : Option A)
      → lookup k m ≡ some (of_optional f o)
      → ((a : A) → o ≡ some a → Decodes api laws get f a)
      → get_optional api get (of_object m) k ≡ ok o
  get_optional-of_optional get f m k o e h =
      get_optional-eq-get_opt get (of_object m) k ∙ get_opt-of_optional api laws get f m k o e h

  pub get_optional_string :
      (m : Dict Json) (k : String) (s : String)
      → lookup k m ≡ some (of_string s)
      → get_optional api get_string (of_object m) k ≡ ok (some s)
  get_optional_string m k s e =
      get_optional-eq-get_opt get_string (of_object m) k
      ∙ get_opt_found api laws get_string of_string m k s e (string-Decodes api laws s)

  pub get_optional_missing :
      {A : Type 0} (get : Json → Result A) (m : Dict Json) (k : String)
      → lookup k m ≡ none
      → get_optional api get (of_object m) k ≡ ok none
  unfolding get_optional
  get_optional_missing get m k e =
      rw (laws.contains-find (of_object m) k ∙ ap is_some (laws.find-of_object m k ∙ e)) refl
