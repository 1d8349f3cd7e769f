-- ===== src/User/RoundTrip.antt =====
-- What of a user survives the trip through its JSON form.
use statsig_cpp_core.Prelude.{
  String, ◌≡◌, refl, ap, ◌∙◌, true, Option, none, some, [], ◌∷◌, Dict, lookup, map, IsUnique, over,
  over-none, ok, bind_ok, str_eq, if◌then◌else◌, arith,
}
use statsig_cpp_core.Json.{JsonApi, JsonLaws, is_object}
use statsig_cpp_core.Json.Entries.{
  lookup-map, without, Encodes, Encodes-uncons, entries_decoded, items-Encodes, map_some-none,
  contains-of_object,
}
use statsig_cpp_core.Sticky.GetOpt.{string-Decodes, get_opt_found}
use statsig_cpp_core.Types.{get_optional}
use statsig_cpp_core.Types.GetOptional.{get_optional-of_optional, get_optional-eq-get_opt}
use statsig_cpp_core.Types.Allowed.{
  AllowedType, allowed_from_json, allowed_to_json, allowed_map_to_json,
}
use statsig_cpp_core.Types.Allowed.RoundTrip.{InRangeAllowed, allowed_round_trip}
use statsig_cpp_core.Types.Allowed.Maps.{over-without, allowed_map-is_object, allowed_map-Encodes}
use statsig_cpp_core.User.{
  UserBuilder, decode_custom, user_from_json, custom_to_json, ids_to_json, user_to_json,
}
use statsig_cpp_core.User.Entries.{last_decoded, ThrowsStd, decode_entries_lenient}

-- Two maps, or none twice, with the same values.
abbrev pub SameMap : {A : Type 0} → Option (Dict A) → Option (Dict A) → Type 0
SameMap none none = Unit
SameMap (some m) (some m') = (i : String) → lookup i m ≡ lookup i m'
SameMap _ _ = ⊥

-- The attributes have no key twice, and their integers are in the range of int64_t.
abbrev pub IsCustom : {D : Type 0} → Option (Dict (AllowedType D)) → Type 0
IsCustom none = Unit
IsCustom {D} (some m) =
    IsUnique m × ((i : String) (a : AllowedType D) → lookup i m ≡ some a → InRangeAllowed a)

-- The user with other maps.
abbrev pub with_maps :
    {D : Type 0}
    → UserBuilder D
    → Option (Dict String)
    → Option (Dict (AllowedType D))
    → Option (Dict (AllowedType D))
    → UserBuilder D
with_maps u ids custom private_attribute = record u {
  custom_ids = ids;
  custom = custom;
  private_attribute = private_attribute;
}

module _ (api : JsonApi) (laws : JsonLaws api) where
  open api use {
    Json, Double, null, of_object, of_string, of_optional, get_string, get_map, items, contains,
    index,
  }

  -- Entries that hold encoded attributes are decoded.
  decoded_last :
      (entries : Dict Json) (g : String → Option (AllowedType Double)) (i : String)
      (o : Option (AllowedType Double))
      → Encodes (allowed_to_json api) entries g
      → ((k : String) (a : AllowedType Double) → g k ≡ some a → InRangeAllowed a)
      → ThrowsStd api entries × (last_decoded api entries i o ≡ over (g i) o)
  decoded_last [] g i o (_, spec) h =
      (tt, ap (λ x. over x o) (map_some-none (allowed_to_json api) (g i) (spec i)))
  decoded_last ((k, j) ∷ rest) g i o e h =
      let (a, found, same, others) = Encodes-uncons (allowed_to_json api) k j rest g e in
      let decoded : allowed_from_json api j ≡ ok a =
        ap (allowed_from_json api) same ∙ allowed_round_trip api laws a (h k a found) in
      let (throws, last) =
        decoded_last rest (without k g) i (if str_eq k i then some a else o) others
          (λ i b e. h i b (ground (arith, e))) in
      ((λ e. cc, throws), rw decoded (last ∙ over-without k i a g o found))

  custom_returns :
      (fields : Dict Json) (k : String) (o : Option (Dict (AllowedType Double)))
      → lookup k fields ≡ some (custom_to_json api o)
      → IsCustom o
      → (o' : Option (Dict (AllowedType Double))) × (decode_custom api (of_object fields) k ≡ ok o')
        × SameMap o' o
  unfolding decode_custom custom_to_json
  custom_returns fields k none e h =
      let (there, at) = contains-of_object api laws fields k null e in
      (none, rw (there, at, laws.kind-null) refl, tt)
  custom_returns fields k (some m) e (unique, range) =
      let (there, at) = contains-of_object api laws fields k (allowed_map_to_json api m) e in
      let encoded = allowed_map-Encodes api laws m unique in
      let entries = items (allowed_map_to_json api m) in
      let last = λ (i : String). decoded_last entries (λ i. lookup i m) i none encoded range in
      let (m', decoded, spec) = decode_entries_lenient api entries [] (last "").0 in
      (
        some m',
        rw (there, at, allowed_map-is_object api laws m) (bind_ok _ decoded refl),
        λ i. spec i ∙ (last i).1 ∙ over-none (lookup i m),
      )

  ids_return :
      (fields : Dict Json) (k : String) (o : Option (Dict String))
      → lookup k fields ≡ some (of_optional (ids_to_json api) o)
      → (o' : Option (Dict String)) × (get_optional api (get_map get_string) (of_object fields) k
          ≡ ok o')
        × SameMap o' o
  unfolding ids_to_json
  ids_return fields k none e = (
    none,
    get_optional-of_optional api laws (get_map get_string) (ids_to_json api) fields k none e
        (λ m e. cc),
    tt,
  )
  ids_return fields k (some m) e =
      let j = of_object (map (λ e. (e.0, of_string e.1)) m) in
      let object : is_object api j ≡ true =
        rw (laws.kind-of_object (map (λ e. (e.0, of_string e.1)) m)) refl in
      let (m', decoded, spec) =
        entries_decoded of_string get_string (items j) (λ i. lookup i m)
          (items-Encodes api laws of_string j (λ i. lookup i m) object
            (λ i.
              laws.find-of_object (map (λ e. (e.0, of_string e.1)) m) i ∙ lookup-map of_string i m))
          (λ i s _. laws.get_string-of_string s) in
      (
        some m',
        get_optional-eq-get_opt api laws (get_map get_string) (of_object fields) k
            ∙ get_opt_found api laws (get_map get_string) (λ m. j) fields k m'
                (e ∙ ap some (laws.of_optional-some (ids_to_json api) m))
                (
                  rw (laws.kind-of_object (map (λ e. (e.0, of_string e.1)) m)) refl,
                  laws.get_map_lem get_string j object ∙ decoded,
                ),
        spec,
      )

  string_field :
      (fields : Dict Json) (k : String) (o : Option String)
      → lookup k fields ≡ some (of_optional of_string o)
      → get_optional api get_string (of_object fields) k ≡ ok o
  string_field fields k o e =
      get_optional-of_optional api laws get_string of_string fields k o e
        (λ s _. string-Decodes api laws s)

  -- For every user whose custom and private attributes have no key twice and integers in the range
  -- of int64_t, from_json of its to_json returns a user with the same eight texts, and with custom
  -- ids, custom and private attributes that are set exactly if they were and have the same value
  -- for each key.
  pub user_round_trip :
      (u : UserBuilder Double)
      → IsCustom u.custom
      → IsCustom u.private_attribute
      → (ids : Option (Dict String)) × (custom private_attribute : Option
          (Dict (AllowedType Double)))
        × (user_from_json api (user_to_json api u) ≡ ok (with_maps u ids custom private_attribute))
        × SameMap ids u.custom_ids
        × SameMap custom u.custom
        × SameMap private_attribute u.private_attribute
  unfolding user_from_json user_to_json
  user_round_trip u h k =
      let (ids, e, same_ids) = ids_return _ "customIDs" u.custom_ids refl in
      let (custom, f, same_custom) = custom_returns _ "custom" u.custom refl h in
      let (private_attribute, g, same_private) =
        custom_returns _ "privateAttributes" u.private_attribute refl k in
      (
        ids,
        custom,
        private_attribute,
        bind_ok _ (string_field _ "userID" u.user_id refl) (
            bind_ok _ e (
              bind_ok _ (string_field _ "email" u.email refl) (
                bind_ok _ (string_field _ "ip" u.ip refl) (
                  bind_ok _ (string_field _ "userAgent" u.user_agent refl) (
                    bind_ok _ (string_field _ "country" u.country refl) (
                      bind_ok _ (string_field _ "locale" u.locale refl) (
                        bind_ok _ (string_field _ "appVersion" u.app_version refl)
                          (bind_ok _ f (bind_ok _ g refl))))))))),
        same_ids,
        same_custom,
        same_private,
      )
