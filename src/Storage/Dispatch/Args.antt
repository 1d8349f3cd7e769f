-- ===== src/Storage/Dispatch/Args.antt =====
-- The tests of `dispatch_save` and `dispatch_delete` on the parsed arguments.
use statsig_cpp_core.Prelude.{
  String, ◌≡◌, refl, ap, sym, ◌∙◌, inl, inr, Bool, true, false, not, ◌||◌, some, arith,
  Option-cases,
}
use statsig_cpp_core.Json.{JsonApi, JsonLaws, is_string, is_object, is_some}
use statsig_cpp_core.Storage.Dispatch.{lacks_string, lacks_object}

or_false : (a b : Bool) → (not a || not b) ≡ false → (a ≡ true) × (b ≡ true)
or_false a b h = ground arith

module _ (api : JsonApi) (laws : JsonLaws api) (args : api.Json) (k : String) where
  -- The entry of a key is there, and is a string, or an object.
  abbrev pub HasString : Type 0
  HasString = (j : api.Json) × (api.find args k ≡ some j) × (is_string api j ≡ true)

  abbrev pub HasObject : Type 0
  HasObject = (j : api.Json) × (api.find args k ≡ some j) × (is_object api j ≡ true)

  pub lacks_string_found :
      (s : String) → api.find args k ≡ some (api.of_string s) → lacks_string api args k ≡ false
  lacks_string_found s e =
      rw
        (
          laws.contains-find args k ∙ ap is_some e,
          laws.index_found args k _ e,
          laws.kind-of_string s,
        )
        refl

  pub lacks_object_found :
      (j : api.Json)
      → api.find args k ≡ some j
      → is_object api j ≡ true
      → lacks_object api args k ≡ false
  lacks_object_found j e o =
      rw (laws.contains-find args k ∙ ap is_some e, laws.index_found args k j e, o) refl

  -- A key that passes a test on `contains` and on the entry.
  found_entry :
      (p : api.Json → Bool)
      → (not (api.contains args k) || not (p (api.index args k))) ≡ false
      → (j : api.Json) × (api.find args k ≡ some j) × (p j ≡ true)
  found_entry p h = elim (Option-cases (api.find args k)) [
    | inl e ↦ absurd (ground (arith, (or_false _ _ h).0, laws.contains-find args k ∙ ap is_some e))
    | inr (j, e) ↦ (j, e, ap p (sym (laws.index_found args k j e)) ∙ (or_false _ _ h).1)
  ]

  pub HasString_of_lacks : lacks_string api args k ≡ false → HasString
  HasString_of_lacks = found_entry (is_string api)

  pub HasObject_of_lacks : lacks_object api args k ≡ false → HasObject
  HasObject_of_lacks = found_entry (is_object api)
