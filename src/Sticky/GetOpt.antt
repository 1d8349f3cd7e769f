-- ===== src/Sticky/GetOpt.antt =====
-- `get_opt` on the objects that the encoders build.
use statsig_cpp_core.Prelude.{
  String, ◌≡◌, refl, false, Option, none, some, List, map, Dict, lookup, Result, ok, ◌∙◌,
  traverse-map,
}
use statsig_cpp_core.Json.{JsonApi, JsonLaws, is_null}
use statsig_cpp_core.Sticky.{get_opt}

module _ (api : JsonApi) (laws : JsonLaws api) where
  open api use {Json, of_array, of_object, of_optional, get_array}

  -- A value that is encoded as something else than null, and decoded back.
  abbrev pub Decodes : {A : Type 0} → (Json → Result A) → (A → Json) → A → Type 0
  Decodes get f a = (is_null api (f a) ≡ false) × (get (f a) ≡ ok a)

  pub get_opt-of_optional :
      {A : Type 0} (get : Json → Result A) (f : A → Json) (m : Dict Json) (k : String)
      (o : Option A)
      → lookup k m ≡ some (of_optional f o)
      → ((a : A) → o ≡ some a → Decodes get f a)
      → get_opt api get (of_object m) k ≡ ok o
  unfolding get_opt
  get_opt-of_optional get f m k none e h =
      rw (laws.find-of_object m k ∙ e, get_opt, laws.of_optional-none f, laws.kind-null) refl
  get_opt-of_optional get f m k (some a) e h =
      rw
        (
          laws.find-of_object m k ∙ e,
          get_opt,
          laws.of_optional-some f a,
          (h a refl).0,
          (h a refl).1,
        )
        refl

  pub at-of_object :
      (m : Dict Json) (k : String) (v : Json) → lookup k m ≡ some v → api.at (of_object m) k ≡ ok v
  at-of_object m k v e = laws.at_found (of_object m) k v (laws.find-of_object m k ∙ e)

  pub get_opt_found :
      {A : Type 0} (get : Json → Result A) (f : A → Json) (m : Dict Json) (k : String) (a : A)
      → lookup k m ≡ some (f a)
      → Decodes get f a
      → get_opt api get (of_object m) k ≡ ok (some a)
  unfolding get_opt
  get_opt_found get f m k a e h = rw (laws.find-of_object m k ∙ e, get_opt, h.0, h.1) refl

  -- An array of encoded elements is decoded back.
  pub array-Decodes :
      {A : Type 0} (get : Json → Result A) (f : A → Json)
      → ((a : A) → get (f a) ≡ ok a)
      → (l : List A) → Decodes (get_array get) (λ l. of_array (map f l)) l
  array-Decodes get f h l = (
    rw (laws.kind-of_array (map f l)) refl,
    laws.get_array_lem get (of_array (map f l)) (rw (laws.kind-of_array (map f l)) refl)
        ∙ rw (laws.elements-of_array (map f l)) (traverse-map get f h l),
  )

  pub string-Decodes : (s : String) → Decodes api.get_string api.of_string s
  string-Decodes s = (rw (laws.kind-of_string s) refl, laws.get_string-of_string s)
