-- ===== src/Types/Allowed/Maps.antt =====
-- The JSON form of a map of custom attributes.
use statsig_cpp_core.Prelude.{
  String, ◌≡◌, refl, ap, ◌∙◌, inl, inr, true, Option, none, some, [], ◌∷◌, Dict, lookup, insert,
  lookup-insert, ok, bind_ok, IsUnique, over, over-none, Bool-cases, if◌then◌else◌, str_eq, eq_iff,
  arith,
}
use statsig_cpp_core.Json.{JsonApi, JsonLaws, is_object}
use statsig_cpp_core.Json.Entries.{
  map_some, map_some-none, without, Encodes, Encodes-uncons, items-Encodes,
}
use statsig_cpp_core.Types.Allowed.{
  AllowedType, allowed_to_json, assign_entries, allowed_map_to_json, allowed_from_json, map_entries,
  allowed_map_from_json,
}
use statsig_cpp_core.Types.Allowed.RoundTrip.{InRangeAllowed, allowed_round_trip}

pub over-without :
    {A : Type 0} (k i : String) (a : A) (g : String → Option A) (o : Option A)
    → g k ≡ some a
    → over (without k g i) (if str_eq k i then some a else o) ≡ over (g i) o
over-without k i a g o found = elim (Bool-cases (str_eq k i)) [
  | inl eq ↦ let e : g i ≡ some a = ground (arith, found, eq_iff k i) in rw (eq, e) refl
  | inr ne ↦ rw ne refl
]

module _ (api : JsonApi) (laws : JsonLaws api) where
  open api use {Json, Double, find, assign, of_object}

  assign_entries-is_object :
      (m : Dict (AllowedType Double)) (j : Json)
      → is_object api j ≡ true
      → is_object api (assign_entries api j m) ≡ true
  unfolding assign_entries
  assign_entries-is_object [] j h = h
  assign_entries-is_object ((k, v) ∷ m) j h =
      assign_entries-is_object m (assign j k (allowed_to_json api v))
        (laws.kind-assign j k (allowed_to_json api v) h)

  find-assign_entries :
      (m : Dict (AllowedType Double)) (j : Json) (i : String)
      → is_object api j ≡ true
      → IsUnique m
      → find (assign_entries api j m) i
        ≡ over (map_some (allowed_to_json api) (lookup i m)) (find j i)
  unfolding assign_entries
  find-assign_entries [] j i h u = refl
  find-assign_entries ((k, v) ∷ m) j i h (fresh, u) =
      let e = allowed_to_json api v in
      let rest = find-assign_entries m (assign j k e) i (laws.kind-assign j k e h) u in
      elim (Bool-cases (str_eq k i)) [
        | inl eq ↦
            let missing : lookup i m ≡ none = ground (arith, fresh, eq_iff k i) in
            rest ∙ rw (eq, missing, laws.find-assign j k i e h, eq) refl
        | inr ne ↦ rest ∙ rw (ne, laws.find-assign j k i e h, ne) refl
      ]

  pub allowed_map-is_object :
      (m : Dict (AllowedType Double)) → is_object api (allowed_map_to_json api m) ≡ true
  unfolding allowed_map_to_json
  allowed_map-is_object m =
      assign_entries-is_object m (of_object []) (rw (laws.kind-of_object []) refl)

  -- For a map with no key twice, the entries of the object are the encoded values.
  pub allowed_map-Encodes :
      (m : Dict (AllowedType Double))
      → IsUnique m
      → Encodes (allowed_to_json api) (api.items (allowed_map_to_json api m)) (λ i. lookup i m)
  unfolding allowed_map_to_json
  allowed_map-Encodes m u =
      items-Encodes api laws (allowed_to_json api) (allowed_map_to_json api m) (λ i. lookup i m)
        (allowed_map-is_object m)
        (λ i.
          find-assign_entries m (of_object []) i (rw (laws.kind-of_object []) refl) u
          ∙ ap (over (map_some (allowed_to_json api) (lookup i m))) (laws.find-of_object [] i)
          ∙ over-none (map_some (allowed_to_json api) (lookup i m)))

  map_entries-Encodes :
      (entries : Dict Json) (g : String → Option (AllowedType Double))
      (m : Dict (AllowedType Double))
      → Encodes (allowed_to_json api) entries g
      → ((k : String) (a : AllowedType Double) → g k ≡ some a → InRangeAllowed a)
      → (m' : Dict (AllowedType Double)) × (map_entries api entries m ≡ ok m')
        × ((i : String) → lookup i m' ≡ over (g i) (lookup i m))
  unfolding map_entries
  map_entries-Encodes [] g m (_, spec) h = (
    m,
    refl,
    λ i. ap (λ x. over x (lookup i m)) (map_some-none (allowed_to_json api) (g i) (spec i)),
  )
  map_entries-Encodes ((k, j) ∷ rest) g m e h =
      let (a, found, same, others) = Encodes-uncons (allowed_to_json api) k j rest g e in
      let (m', decoded, spec) =
        map_entries-Encodes rest (without k g) (insert k a m) others
          (λ i b e. h i b (ground (arith, e))) in
      (
        m',
        bind_ok _ (ap (allowed_from_json api) same ∙ allowed_round_trip api laws a (h k a found))
            decoded,
        λ i.
            spec i
            ∙ ap (over (without k g i)) (lookup-insert k i a m)
            ∙ over-without k i a g (lookup i m) found,
      )

  -- For every map of custom attributes with no key twice and integers in the range of int64_t,
  -- from_json of its to_json, into an empty map, returns a map with the same value for each key:
  -- single values and lists keep the alternative of the variant.
  pub allowed_map_round_trip :
      (m : Dict (AllowedType Double))
      → IsUnique m
      → ((i : String) (a : AllowedType Double) → lookup i m ≡ some a → InRangeAllowed a)
      → (m' : Dict (AllowedType Double)) × (allowed_map_from_json api (allowed_map_to_json api m) []
          ≡ ok m')
        × ((i : String) → lookup i m' ≡ lookup i m)
  unfolding allowed_map_from_json
  allowed_map_round_trip m u h =
      let (m', decoded, spec) =
        map_entries-Encodes (api.items (allowed_map_to_json api m)) (λ i. lookup i m) []
          (allowed_map-Encodes m u) h in
      (m', rw (allowed_map-is_object m) decoded, λ i. spec i ∙ over-none (lookup i m))
