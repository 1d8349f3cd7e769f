-- ===== src/Observer/Tags/Strings.antt =====
-- Which tags `parse_tags` gives: the string entries.
use statsig_cpp_core.Prelude.{
  String, ◌≡◌, refl, ap, sym, ◌∙◌, inl, inr, Bool, true, false, Option, none, some, [], ◌∷◌, Dict,
  lookup, emplace, lookup-emplace, IsUnique, over, over-none, Result, ok, throw, bind_ok,
  Bool-cases, str_eq, eq_iff, if◌then◌else◌, arith,
}
use statsig_cpp_core.Json.{JsonApi, JsonLaws, is_string, is_object, is_some}
use statsig_cpp_core.Observer.Tags.{add_tag, add_tags, parse_tags}

over_nothing : {A : Type 0} (b : Bool) (o : Option A) → o ≡ over o (if b then none else none)
over_nothing true o = sym (over-none o)
over_nothing false o = sym (over-none o)

over_assoc : {A : Type 0} (a b c : Option A) → over (over a b) c ≡ over a (over b c)
over_assoc none b c = refl
over_assoc (some x) b c = refl

module _ (api : JsonApi) where
  abbrev value_of : Result String → Option String
  value_of (ok s) = some s
  value_of (throw e) = none

  -- The string that an entry is, if it is there and is one.
  abbrev pub string_of : Option api.Json → Option String
  string_of none = none
  string_of (some v) = if is_string api v then value_of (api.get_string v) else none

  abbrev entry_of : Option api.Json → String → Option api.Json
  entry_of none k = none
  entry_of (some tags) k = api.find tags k

  -- The tag of a key in a metric's JSON: a string under "tags".
  abbrev pub tag_of : api.Json → String → Option String
  tag_of j k = string_of (entry_of (api.find j "tags") k)

module _ (api : JsonApi) (laws : JsonLaws api) where
  open api use {Json, find, items}

  -- One round of the loop.
  add_tag_lem :
      (k : String) (v : Json) (m : Dict String)
      → (m' : Dict String) × (add_tag api k v m ≡ ok m')
        × ((i : String)
            → lookup i m' ≡ over (lookup i m) (if str_eq k i then string_of api (some v) else none))
  unfolding add_tag
  add_tag_lem k v m = elim (Bool-cases (is_string api v)) [
    | inl is ↦
        let (s, e) = laws.get_string_reads v is in
        (emplace k s m, rw (is, e) refl, λ i. rw (is, e) (lookup-emplace k i s m))
    | inr isnt ↦ (m, rw isnt refl, λ i. rw isnt (over_nothing (str_eq k i) (lookup i m)))
  ]

  next_tag :
      (k i : String) (v : Json) (rest : Dict Json)
      → lookup k rest ≡ none
      → over (if str_eq k i then string_of api (some v) else none) (string_of api (lookup i rest))
        ≡ string_of api (lookup i ((k, v) ∷ rest))
  next_tag k i v rest fresh = elim (Bool-cases (str_eq k i)) [
    | inl eq ↦
        let missing : lookup i rest ≡ none = ground (arith, fresh, eq_iff k i) in
        rw (eq, missing) (over-none (string_of api (some v)))
    | inr ne ↦ rw ne refl
  ]

  add_tags_lem :
      (entries : Dict Json) (m : Dict String)
      → IsUnique entries
      → (m' : Dict String) × (add_tags api entries m ≡ ok m')
        × ((i : String) → lookup i m' ≡ over (lookup i m) (string_of api (lookup i entries)))
  unfolding add_tags
  add_tags_lem [] m u = (m, refl, λ i. sym (over-none (lookup i m)))
  add_tags_lem ((k, v) ∷ rest) m (fresh, u) =
      let (m1, added, first) = add_tag_lem k v m in
      let (m2, decoded, others) = add_tags_lem rest m1 u in
      (
        m2,
        bind_ok _ added decoded,
        λ i.
            others i
            ∙ ap (λ o. over o (string_of api (lookup i rest))) (first i)
            ∙ over_assoc (lookup i m) _ (string_of api (lookup i rest))
            ∙ ap (over (lookup i m)) (next_tag k i v rest fresh),
      )

  parse_tags_found :
      (j : Json) (o : Option Json)
      → find j "tags" ≡ o
      → (tags : Dict String) × (parse_tags api j ≡ ok tags)
        × ((k : String) → lookup k tags ≡ string_of api (entry_of api o k))
  unfolding parse_tags
  parse_tags_found j none e = ([], rw (laws.contains-find j "tags" ∙ ap is_some e) refl, λ k. refl)
  parse_tags_found j (some t) e = elim (Bool-cases (is_object api t)) [
    | inl object ↦
        let (tags, decoded, spec) = add_tags_lem (items t) [] (laws.items-IsUnique t) in
        (
          tags,
          rw (laws.contains-find j "tags" ∙ ap is_some e, laws.index_found j "tags" t e, object)
              decoded,
          λ k. spec k ∙ ap (string_of api) (laws.lookup-items t k object),
        )
    | inr other ↦ (
      [],
      rw (laws.contains-find j "tags" ∙ ap is_some e, laws.index_found j "tags" t e, other) refl,
      λ k. sym (ap (string_of api) (laws.find_no_object t k other)),
    )
  ]

  -- Parsing the tags throws nothing and gives the entries under "tags" that are strings.
  pub parse_tags_strings :
      (j : Json)
      → (tags : Dict String) × (parse_tags api j ≡ ok tags)
        × ((k : String) → lookup k tags ≡ tag_of api j k)
  parse_tags_strings j = parse_tags_found j (find j "tags") refl
