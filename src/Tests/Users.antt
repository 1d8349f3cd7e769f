-- ===== src/Tests/Users.antt =====
-- A user with attributes, and groups of an experiment, through JSON, over a library of trees.
use statsig_cpp_core.Prelude.{
  ◌-◌, ◌<◌, ◌^◌, ◌↔◌, String, ◌≡◌, refl, subst, Bool, true, false, Option, none, some,
  some-injective, [], ◌∷◌, Dict, lookup, IsUnique, ok, throw, json_exception, if◌then◌else◌, arith,
  str_eq, ℕ,
}
use statsig_cpp_core.Json.{JsonApi, JsonLaws, CastLaws, pos, negsuc}
use statsig_cpp_core.Json.Tree.{uint, tree_api}
use statsig_cpp_core.Json.Tree.Laws.{tree_laws, tree_casts}
use statsig_cpp_core.Types.Allowed.{
  AllowedType, int, string, primitive, vector, allowed_map_to_json, allowed_map_from_json,
  allowed_from_json, allowed_to_json,
}
use statsig_cpp_core.Types.Allowed.Casts.{attribute_wraps}
use statsig_cpp_core.Types.Allowed.RoundTrip.{InRangeAllowed}
use statsig_cpp_core.Types.Allowed.Maps.{allowed_map_round_trip}
use statsig_cpp_core.User.{UserBuilder, new_user, user_from_json, user_to_json}
use statsig_cpp_core.User.RoundTrip.{SameMap, with_maps, user_round_trip}

abbrev api : JsonApi
api = tree_api (λ s. throw json_exception) (λ t. ok "{}")

abbrev laws : JsonLaws api
laws = tree_laws (λ s. throw json_exception) (λ t. ok "{}")

casts : CastLaws api
casts = tree_casts (λ s. throw json_exception) (λ t. ok "{}")

-- 2 ^ 63 becomes -2 ^ 63.
attribute_wraps_example :
    (allowed_from_json api (uint (2 ^ 63)) ≡ ok (primitive (int (negsuc (2 ^ 63 - 1)))))
    × (allowed_to_json api (primitive (int (negsuc (2 ^ 63 - 1))))
        ≡ api.of_int (negsuc (2 ^ 63 - 1)))
    × ((negsuc (2 ^ 63 - 1) ≡ pos (2 ^ 63)) ↔ (2 ^ 63 < 2 ^ 63))
attribute_wraps_example = attribute_wraps api laws casts (2 ^ 63) (omega arith)

abbrev level : AllowedType ℕ
level = primitive (int (pos 3))

abbrev tags : AllowedType ℕ
tags = vector (string "a" ∷ string "b" ∷ [])

abbrev attributes : Dict (AllowedType ℕ)
attributes = ("level", level) ∷ ("tags", tags) ∷ []

attributes-IsUnique : IsUnique attributes
attributes-IsUnique = (refl, (refl, tt))

chosen_in_range :
    (b : Bool) (x a : AllowedType ℕ) (rest : Option (AllowedType ℕ))
    → InRangeAllowed x
    → (rest ≡ some a → InRangeAllowed a)
    → (if b then some x else rest) ≡ some a
    → InRangeAllowed a
chosen_in_range true x a rest h k e = subst InRangeAllowed (some-injective x a e) h
chosen_in_range false x a rest h k e = k e

attributes_in_range :
    (i : String) (a : AllowedType ℕ) → lookup i attributes ≡ some a → InRangeAllowed a
attributes_in_range i a =
    chosen_in_range (str_eq "level" i) level a _ (omega arith)
      (chosen_in_range (str_eq "tags" i) tags a none (tt, (tt, tt)) (λ e. cc))

abbrev user : UserBuilder ℕ
user = record (new_user ℕ) {
  user_id = some "a-user";
  custom_ids = some (("team", "red") ∷ []);
  custom = some attributes;
}

user_round_trip_example :
    (ids : Option (Dict String)) × (custom private_attribute : Option (Dict (AllowedType ℕ)))
    × (user_from_json api (user_to_json api user)
        ≡ ok (with_maps user ids custom private_attribute))
    × SameMap ids user.custom_ids
    × SameMap custom user.custom
    × SameMap private_attribute user.private_attribute
user_round_trip_example =
    user_round_trip api laws user (attributes-IsUnique, attributes_in_range) tt

allowed_map_round_trip_example :
    (m : Dict (AllowedType ℕ)) × (allowed_map_from_json api (allowed_map_to_json api attributes) []
      ≡ ok m)
    × ((i : String) → lookup i m ≡ lookup i attributes)
allowed_map_round_trip_example =
    allowed_map_round_trip api laws attributes attributes-IsUnique attributes_in_range
