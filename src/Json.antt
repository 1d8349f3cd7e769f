-- ===== src/Json.antt =====
-- nlohmann::json as an interface. The library is not part of the repository: its type of values and
-- the functions that the code calls are the fields of `JsonApi`, and what the code relies on is
-- `JsonLaws`, from the library's documentation. `Json.Tree` is an implementation for the tests.
pub mod Tree
pub mod Entries
use statsig_cpp_core.Prelude.{
  ℕ, ◌-◌, ltb, ◌<◌, ◌^◌, String, ◌≡◌, Bool, true, false, Option, none, some, List, Dict, lookup,
  IsUnique, Result, ok, throw, json_exception, traverse, str_eq, if◌then◌else◌,
}
use statsig_cpp_core.Prelude.Results.{◌>>=◌}

-- int64_t: `pos n` is n, `negsuc n` is -(n + 1).
pub data ℤ : Type 0 where
  pos negsuc : ℕ → ℤ

-- The library's `value_t`, less the discarded value.
pub data Kind : Type 0 where
  null boolean string number_integer number_unsigned number_float array object : Kind

pub record JsonApi : Type 1 where
  pub Json : Type 0
  -- C++'s `double`, and the literal 0.0
  pub Double : Type 0
  pub zero_double : Double
  -- `json::parse(s)`, and `json::parse(s, nullptr, false)`: `none` is the discarded value
  pub parse : String → Result Json
  pub parse_quiet : String → Option Json
  pub dump : Json → Result String
  -- construction: what an initializer list makes of each C++ value
  pub null : Json
  pub of_bool : Bool → Json
  pub of_string : String → Json
  pub of_uint : ℕ → Json
  pub of_int : ℤ → Json
  pub of_double : Double → Json
  pub of_array : List Json → Json
  pub of_object : Dict Json → Json
  pub of_optional : {A : Type 0} → (A → Json) → Option A → Json
  -- `j.type()`
  pub kind : Json → Kind
  -- `j.find(key)`, `j.contains(key)`, `j.at(key)`, and `j[key]` of a key that is there
  pub find : Json → String → Option Json
  pub contains : Json → String → Bool
  pub at : Json → String → Result Json
  pub index : Json → String → Json
  -- `j.value(key, default)`, over the conversion of the default's type
  pub value : {A : Type 0} → (Json → Result A) → Json → String → A → Result A
  -- `j[key] = v` on an object
  pub assign : Json → String → Json → Json
  -- iteration over an object's entries, and over an array's elements
  pub items : Json → Dict Json
  pub elements : Json → List Json
  -- `get<T>()`
  pub get_bool : Json → Result Bool
  pub get_string : Json → Result String
  pub get_uint64 : Json → Result ℕ
  pub get_uint32 : Json → Result ℕ
  pub get_int64 : Json → Result ℤ
  pub get_double : Json → Result Double
  pub get_array : {A : Type 0} → (Json → Result A) → Json → Result (List A)
  pub get_map : {A : Type 0} → (Json → Result A) → Json → Result (Dict A)

-- The documented tests on `type()`.
abbrev pub is_null_kind : Kind → Bool
is_null_kind Kind.null = true
is_null_kind _ = false

abbrev pub is_boolean_kind : Kind → Bool
is_boolean_kind Kind.boolean = true
is_boolean_kind _ = false

abbrev pub is_string_kind : Kind → Bool
is_string_kind Kind.string = true
is_string_kind _ = false

abbrev pub is_number_integer_kind : Kind → Bool
is_number_integer_kind Kind.number_integer = true
is_number_integer_kind Kind.number_unsigned = true
is_number_integer_kind _ = false

abbrev pub is_number_float_kind : Kind → Bool
is_number_float_kind Kind.number_float = true
is_number_float_kind _ = false

abbrev pub is_array_kind : Kind → Bool
is_array_kind Kind.array = true
is_array_kind _ = false

abbrev pub is_object_kind : Kind → Bool
is_object_kind Kind.object = true
is_object_kind _ = false

module _ (api : JsonApi) (j : api.Json) where
  abbrev pub is_null : Bool
  is_null = is_null_kind (api.kind j)

  abbrev pub is_boolean : Bool
  is_boolean = is_boolean_kind (api.kind j)

  abbrev pub is_string : Bool
  is_string = is_string_kind (api.kind j)

  abbrev pub is_number_integer : Bool
  is_number_integer = is_number_integer_kind (api.kind j)

  abbrev pub is_number_float : Bool
  is_number_float = is_number_float_kind (api.kind j)

  abbrev pub is_array : Bool
  is_array = is_array_kind (api.kind j)

  abbrev pub is_object : Bool
  is_object = is_object_kind (api.kind j)

abbrev pub is_some {ℓ} : {A : Type ℓ} → Option A → Bool
is_some none = false
is_some (some a) = true

abbrev pub convert_entry : {A B : Type 0} → (A → Result B) → String × A → Result (String × B)
convert_entry f (k, v) = do b ← f v; ok (k, b)

-- The range of an int64_t.
abbrev pub IsInt64 : ℤ → Type 0
IsInt64 (pos n) = n < 2 ^ 63
IsInt64 (negsuc n) = n < 2 ^ 63

pub record JsonLaws (api : JsonApi) : Type 1 where
  pub kind-null : api.kind api.null ≡ Kind.null
  pub kind-of_bool : (b : Bool) → api.kind (api.of_bool b) ≡ Kind.boolean
  pub kind-of_string : (s : String) → api.kind (api.of_string s) ≡ Kind.string
  pub kind-of_uint : (n : ℕ) → api.kind (api.of_uint n) ≡ Kind.number_unsigned
  pub kind-of_int : (z : ℤ) → api.kind (api.of_int z) ≡ Kind.number_integer
  pub kind-of_double : (d : api.Double) → api.kind (api.of_double d) ≡ Kind.number_float
  pub kind-of_array : (l : List api.Json) → api.kind (api.of_array l) ≡ Kind.array
  pub kind-of_object : (m : Dict api.Json) → api.kind (api.of_object m) ≡ Kind.object
  pub of_optional-none : {A : Type 0} (f : A → api.Json) → api.of_optional f none ≡ api.null
  pub of_optional-some : {A : Type 0} (f : A → api.Json) (a : A) → api.of_optional f (some a) ≡ f a
  -- the first entry of a key is the one that is kept
  pub find-of_object : (m : Dict api.Json) (k : String) → api.find (api.of_object m) k ≡ lookup k m
  pub find_no_object : (j : api.Json) (k : String) → is_object api j ≡ false → api.find j k ≡ none
  pub contains-find : (j : api.Json) (k : String) → api.contains j k ≡ is_some (api.find j k)
  pub index_found :
      (j : api.Json) (k : String) (v : api.Json) → api.find j k ≡ some v → api.index j k ≡ v
  pub at_found :
      (j : api.Json) (k : String) (v : api.Json) → api.find j k ≡ some v → api.at j k ≡ ok v
  pub at_missing :
      (j : api.Json) (k : String) → api.find j k ≡ none → api.at j k ≡ throw json_exception
  pub value_no_object :
      {A : Type 0} (get : api.Json → Result A) (j : api.Json) (k : String) (a : A)
      → is_object api j ≡ false
      → api.value get j k a ≡ throw json_exception
  pub value_found :
      {A : Type 0} (get : api.Json → Result A) (j : api.Json) (k : String) (a : A) (v : api.Json)
      → api.find j k ≡ some v
      → api.value get j k a ≡ get v
  pub value_missing :
      {A : Type 0} (get : api.Json → Result A) (j : api.Json) (k : String) (a : A)
      → is_object api j ≡ true
      → api.find j k ≡ none
      → api.value get j k a ≡ ok a
  pub kind-assign :
      (j : api.Json) (k : String) (v : api.Json)
      → is_object api j ≡ true
      → is_object api (api.assign j k v) ≡ true
  pub find-assign :
      (j : api.Json) (k i : String) (v : api.Json)
      → is_object api j ≡ true
      → api.find (api.assign j k v) i ≡ (if str_eq k i then some v else api.find j i)
  pub lookup-items :
      (j : api.Json) (k : String) → is_object api j ≡ true → lookup k (api.items j) ≡ api.find j k
  pub items-IsUnique : (j : api.Json) → IsUnique (api.items j)
  pub elements-of_array : (l : List api.Json) → api.elements (api.of_array l) ≡ l
  pub get_bool-of_bool : (b : Bool) → api.get_bool (api.of_bool b) ≡ ok b
  pub get_string-of_string : (s : String) → api.get_string (api.of_string s) ≡ ok s
  pub get_uint64-of_uint : (n : ℕ) → n < 2 ^ 64 → api.get_uint64 (api.of_uint n) ≡ ok n
  pub get_uint32-of_uint : (n : ℕ) → n < 2 ^ 32 → api.get_uint32 (api.of_uint n) ≡ ok n
  pub get_int64-of_int : (z : ℤ) → IsInt64 z → api.get_int64 (api.of_int z) ≡ ok z
  pub get_double-of_double : (d : api.Double) → api.get_double (api.of_double d) ≡ ok d
  pub get_string_reads :
      (j : api.Json) → is_string api j ≡ true → (s : String) × (api.get_string j ≡ ok s)
  pub get_string_refuses :
      (j : api.Json) → is_string api j ≡ false → api.get_string j ≡ throw json_exception
  pub get_bool_refuses :
      (j : api.Json) → is_boolean api j ≡ false → api.get_bool j ≡ throw json_exception
  pub get_array_lem :
      {A : Type 0} (f : api.Json → Result A) (j : api.Json)
      → is_array api j ≡ true
      → api.get_array f j ≡ traverse f (api.elements j)
  pub get_array_refuses :
      {A : Type 0} (f : api.Json → Result A) (j : api.Json)
      → is_array api j ≡ false
      → api.get_array f j ≡ throw json_exception
  pub get_map_lem :
      {A : Type 0} (f : api.Json → Result A) (j : api.Json)
      → is_object api j ≡ true
      → api.get_map f j ≡ traverse (convert_entry f) (api.items j)
  pub get_map_refuses :
      {A : Type 0} (f : api.Json → Result A) (j : api.Json)
      → is_object api j ≡ false
      → api.get_map f j ≡ throw json_exception

-- A `uint64_t` as an `int64_t`, as `static_cast` makes it: the same bits.
abbrev pub cast_int64 : ℕ → ℤ
cast_int64 n = if ltb n (2 ^ 63) then pos n else negsuc (2 ^ 64 - 1 - n)

-- `get` between two types of integers is a `static_cast`, without a test of the range.
pub record CastLaws (api : JsonApi) : Type 0 where
  pub get_int64-of_uint : (n : ℕ) → n < 2 ^ 64 → api.get_int64 (api.of_uint n) ≡ ok (cast_int64 n)
