-- ===== src/Types/Allowed.antt =====
-- src/types.h: the values of a user's custom attributes.
pub mod RoundTrip
pub mod Maps
pub mod Casts
use statsig_cpp_core.Prelude.{
  String, Bool, List, [], ◌∷◌, map, Dict, insert, Result, ok, throw, std_exception, json_exception,
  traverse, if◌then◌else◌,
}
use statsig_cpp_core.Prelude.Results.{◌>>=◌}
use statsig_cpp_core.Json.{
  ℤ, JsonApi, is_string, is_number_integer, is_number_float, is_boolean, is_array, is_object,
  is_null,
}

pub data AllowedPrimitive (D : Type 0) : Type 0 where
  string : String → AllowedPrimitive D
  int : ℤ → AllowedPrimitive D
  double : D → AllowedPrimitive D
  bool : Bool → AllowedPrimitive D

pub data AllowedType (D : Type 0) : Type 0 where
  primitive : AllowedPrimitive D → AllowedType D
  vector : List (AllowedPrimitive D) → AllowedType D

module _ (api : JsonApi) where
  open api use {
    Json, Double, of_bool, of_string, of_int, of_double, of_array, of_object, assign, elements,
    items, get_bool, get_string, get_int64, get_double,
  }

  unfoldable pub primitive_from_json : Json → Result (AllowedPrimitive Double)
  primitive_from_json j =
      if is_string api j
      then (do s ← get_string j; ok (string s))
      else if is_number_integer api j
      then (do z ← get_int64 j; ok (int z))
      else if is_number_float api j
      then (do d ← get_double j; ok (double d))
      else if is_boolean api j
      then (do b ← get_bool j; ok (bool b))
      else throw std_exception

  pub primitive_to_json : AllowedPrimitive Double → Json
  primitive_to_json (string s) = of_string s
  primitive_to_json (int z) = of_int z
  primitive_to_json (double d) = of_double d
  primitive_to_json (bool b) = of_bool b

  unfoldable pub allowed_from_json : Json → Result (AllowedType Double)
  allowed_from_json j =
      if is_array api j
      then (do ps ← traverse primitive_from_json (elements j); ok (vector ps))
      else (do p ← primitive_from_json j; ok (primitive p))

  pub allowed_to_json : AllowedType Double → Json
  allowed_to_json (primitive p) = primitive_to_json p
  allowed_to_json (vector ps) = of_array (map primitive_to_json ps)

  -- The loop `j[key] = vj`.
  assign_entries : Json → Dict (AllowedType Double) → Json
  assign_entries j [] = j
  assign_entries j ((k, v) ∷ m) = assign_entries (assign j k (allowed_to_json v)) m

  pub allowed_map_to_json : Dict (AllowedType Double) → Json
  allowed_map_to_json m = assign_entries (of_object []) m

  -- The loop of from_json of a map over the entries of an object, and over values without a key:
  -- the first value is decoded, and then `it.key()` throws.
  map_entries : Dict Json → Dict (AllowedType Double) → Result (Dict (AllowedType Double))
  map_entries [] m = ok m
  map_entries ((k, j) ∷ rest) m = do p ← allowed_from_json j; map_entries rest (insert k p m)

  keyless_values : List Json → Dict (AllowedType Double) → Result (Dict (AllowedType Double))
  keyless_values [] m = ok m
  keyless_values (j ∷ rest) m = do p ← allowed_from_json j; throw json_exception

  -- The entries are added to those of `m`. A null has no value to loop over, and another value
  -- that is neither an object nor an array is its own only one.
  pub allowed_map_from_json : Json → Dict (AllowedType Double) → Result (Dict (AllowedType Double))
  unfolding map_entries keyless_values
  allowed_map_from_json j m =
      if is_object api j
      then map_entries (items j) m
      else if is_array api j
      then keyless_values (elements j) m
      else if is_null api j
      then ok m
      else keyless_values (j ∷ []) m
