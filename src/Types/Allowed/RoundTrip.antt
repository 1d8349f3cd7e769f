-- ===== src/Types/Allowed/RoundTrip.antt =====
-- Custom attributes survive the trip through their JSON form.
use statsig_cpp_core.Prelude.{◌≡◌, refl, List, [], ◌∷◌, map, ok, traverse, bind_ok, false, All}
use statsig_cpp_core.Json.{JsonApi, JsonLaws, IsInt64, is_array}
use statsig_cpp_core.Types.Allowed.{
  AllowedPrimitive, AllowedType, string, int, double, bool, primitive, vector, primitive_from_json,
  primitive_to_json, allowed_from_json, allowed_to_json,
}

-- The integers are in the range of int64_t.
abbrev pub InRangePrimitive : {D : Type 0} → AllowedPrimitive D → Type 0
InRangePrimitive (int z) = IsInt64 z
InRangePrimitive (string s) = Unit
InRangePrimitive (double d) = Unit
InRangePrimitive (bool b) = Unit

abbrev pub InRangeAllowed : {D : Type 0} → AllowedType D → Type 0
InRangeAllowed (primitive p) = InRangePrimitive p
InRangeAllowed (vector ps) = All InRangePrimitive ps

module _ (api : JsonApi) (laws : JsonLaws api) where
  open api use {Double}

  primitive_round_trip :
      (p : AllowedPrimitive Double)
      → InRangePrimitive p
      → primitive_from_json api (primitive_to_json api p) ≡ ok p
  unfolding primitive_from_json primitive_to_json
  primitive_round_trip (string s) h = rw (laws.kind-of_string s, laws.get_string-of_string s) refl
  primitive_round_trip (int z) h = rw (laws.kind-of_int z, laws.get_int64-of_int z h) refl
  primitive_round_trip (double d) h = rw (laws.kind-of_double d, laws.get_double-of_double d) refl
  primitive_round_trip (bool b) h = rw (laws.kind-of_bool b, laws.get_bool-of_bool b) refl

  primitives_round_trip :
      (ps : List (AllowedPrimitive Double))
      → All InRangePrimitive ps
      → traverse (primitive_from_json api) (map (primitive_to_json api) ps) ≡ ok ps
  primitives_round_trip [] h = refl
  primitives_round_trip (p ∷ ps) h =
      bind_ok _ (primitive_round_trip p h.0) (bind_ok _ (primitives_round_trip ps h.1) refl)

  primitive_no_array :
      (p : AllowedPrimitive Double) → is_array api (primitive_to_json api p) ≡ false
  unfolding primitive_to_json
  primitive_no_array (string s) = rw (laws.kind-of_string s) refl
  primitive_no_array (int z) = rw (laws.kind-of_int z) refl
  primitive_no_array (double d) = rw (laws.kind-of_double d) refl
  primitive_no_array (bool b) = rw (laws.kind-of_bool b) refl

  -- For every custom attribute, a single value or a list, whose integers are in the range of
  -- int64_t, from_json of its to_json returns it, with the same alternative of the variant.
  pub allowed_round_trip :
      (a : AllowedType Double)
      → InRangeAllowed a
      → allowed_from_json api (allowed_to_json api a) ≡ ok a
  unfolding allowed_from_json allowed_to_json
  allowed_round_trip (primitive p) h = rw (primitive_no_array p, primitive_round_trip p h) refl
  allowed_round_trip (vector ps) h =
      rw
        (
          laws.kind-of_array (map (primitive_to_json api) ps),
          laws.elements-of_array (map (primitive_to_json api) ps),
          primitives_round_trip ps h,
        )
        refl
