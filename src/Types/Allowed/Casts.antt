-- ===== src/Types/Allowed/Casts.antt =====
-- Custom attributes whose JSON number does not fit the C++ type.
use statsig_cpp_core.Prelude.{ℕ, ◌<◌, ◌^◌, ◌≡◌, ◌↔◌, refl, ok, ltb, inl, inr, Bool-cases, arith}
use statsig_cpp_core.Json.{JsonApi, JsonLaws, CastLaws, pos, cast_int64}
use statsig_cpp_core.Types.Allowed.{
  AllowedPrimitive, AllowedType, allowed_from_json, allowed_to_json, primitive_from_json,
  primitive_to_json,
}

cast_int64-exact : (n : ℕ) → (cast_int64 n ≡ pos n) ↔ (n < 2 ^ 63)
cast_int64-exact n = elim (Bool-cases (ltb n (2 ^ 63))) [
  | inl fits ↦ (λ e. ground arith, λ lt. rw fits refl)
  | inr large ↦ (λ e. let e' = (rw large at e) in cc, λ lt. absurd (ground arith))
]

module _ (api : JsonApi) (laws : JsonLaws api) (casts : CastLaws api) where
  -- If get converts between integer types by a static_cast, then a custom attribute whose JSON
  -- number is unsigned and below 2^64 decodes to the int64_t with the same bits, and this is what
  -- to_json writes; it is the number itself exactly if that is below 2^63.
  pub attribute_wraps :
      (n : ℕ)
      → n < 2 ^ 64
      → (allowed_from_json api (api.of_uint n)
          ≡ ok (AllowedType.primitive (AllowedPrimitive.int (cast_int64 n))))
        × (allowed_to_json api (AllowedType.primitive (AllowedPrimitive.int (cast_int64 n)))
            ≡ api.of_int (cast_int64 n))
        × ((cast_int64 n ≡ pos n) ↔ (n < 2 ^ 63))
  unfolding allowed_from_json primitive_from_json allowed_to_json primitive_to_json
  attribute_wraps n h =
      (rw (laws.kind-of_uint n, casts.get_int64-of_uint n h) refl, refl, cast_int64-exact n)
