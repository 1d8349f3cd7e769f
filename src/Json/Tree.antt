-- ===== src/Json/Tree.antt =====
-- An implementation of `JsonApi` by trees, over any reader and writer of texts. It shows that
-- `JsonLaws` can hold, and the tests run on it. A number of it is exact, and a `Double` counts units.
pub mod Laws
use statsig_cpp_core.Prelude.{
  ℕ, String, ◌≡◌, refl, Bool, Option, none, some, List, [], ◌∷◌, Dict, lookup, insert, dedup,
  Result, ok, throw, json_exception, traverse, if◌then◌else◌,
}
use statsig_cpp_core.Json.{
  ℤ, cast_int64, Kind, JsonApi, is_object_kind, is_array_kind, is_some, convert_entry,
}

mutual
  pub data Tree : Type 0 where
    null : Tree
    bool : Bool → Tree
    string : String → Tree
    uint : ℕ → Tree
    int : ℤ → Tree
    double : ℕ → Tree
    array : Elements → Tree
    object : Entries → Tree

  pub data Elements : Type 0 where
    nil : Elements
    cons : Tree → Elements → Elements

  pub data Entries : Type 0 where
    end : Entries
    entry : String → Tree → Entries → Entries

abbrev of_elements : Elements → List Tree
of_elements nil = []
of_elements (cons t l) = t ∷ of_elements l

abbrev to_elements : List Tree → Elements
to_elements [] = nil
to_elements (t ∷ l) = cons t (to_elements l)

abbrev of_entries : Entries → Dict Tree
of_entries end = []
of_entries (entry k t m) = (k, t) ∷ of_entries m

abbrev to_entries : Dict Tree → Entries
to_entries [] = end
to_entries ((k, t) ∷ m) = entry k t (to_entries m)

of_elements-to_elements : (l : List Tree) → of_elements (to_elements l) ≡ l
of_elements-to_elements [] = refl
of_elements-to_elements (t ∷ l) = rw (of_elements-to_elements l) refl

of_entries-to_entries : (m : Dict Tree) → of_entries (to_entries m) ≡ m
of_entries-to_entries [] = refl
of_entries-to_entries ((k, t) ∷ m) = rw (of_entries-to_entries m) refl

abbrev kind : Tree → Kind
kind null = Kind.null
kind (bool b) = Kind.boolean
kind (string s) = Kind.string
kind (uint n) = Kind.number_unsigned
kind (int z) = Kind.number_integer
kind (double d) = Kind.number_float
kind (array l) = Kind.array
kind (object m) = Kind.object

abbrev items : Tree → Dict Tree
items (object m) = dedup (of_entries m)
items _ = []

abbrev elements : Tree → List Tree
elements (array l) = of_elements l
elements _ = []

abbrev find : Tree → String → Option Tree
find t k = lookup k (items t)

abbrev or_throw : Option Tree → Result Tree
or_throw none = throw json_exception
or_throw (some t) = ok t

abbrev or_null : Option Tree → Tree
or_null none = null
or_null (some t) = t

abbrev assign : Tree → String → Tree → Tree
assign (object m) k t = object (to_entries (insert k t (of_entries m)))
assign t k _ = t

abbrev get_bool : Tree → Result Bool
get_bool (bool b) = ok b
get_bool _ = throw json_exception

abbrev get_string : Tree → Result String
get_string (string s) = ok s
get_string _ = throw json_exception

abbrev get_uint : Tree → Result ℕ
get_uint (uint n) = ok n
get_uint _ = throw json_exception

abbrev get_int : Tree → Result ℤ
get_int (int z) = ok z
get_int (uint n) = ok (cast_int64 n)
get_int _ = throw json_exception

abbrev get_double : Tree → Result ℕ
get_double (double d) = ok d
get_double (uint n) = ok n
get_double _ = throw json_exception

abbrev optional : {A : Type 0} → (A → Tree) → Option A → Tree
optional f none = null
optional f (some a) = f a

module _ {A : Type 0} (get : Tree → Result A) where
  abbrev value_of : Option Tree → A → Result A
  value_of none a = ok a
  value_of (some t) a = get t

  abbrev value : Tree → String → A → Result A
  value t k a = if is_object_kind (kind t) then value_of (find t k) a else throw json_exception

  abbrev get_array : Tree → Result (List A)
  get_array t = if is_array_kind (kind t) then traverse get (elements t) else throw json_exception

  abbrev get_map : Tree → Result (Dict A)
  get_map t =
      if is_object_kind (kind t)
      then traverse (convert_entry get) (items t)
      else throw json_exception

module _ (read : String → Result Tree) (write : Tree → Result String) where
  abbrev discard : Result Tree → Option Tree
  discard (ok t) = some t
  discard (throw e) = none

  abbrev pub tree_api : JsonApi
  tree_api = record {
    Json = Tree;
    Double = ℕ;
    zero_double = 0;
    parse = read;
    parse_quiet = λ s. discard (read s);
    dump = write;
    null = null;
    of_bool = bool;
    of_string = string;
    of_uint = uint;
    of_int = int;
    of_double = double;
    of_array = λ l. array (to_elements l);
    of_object = λ m. object (to_entries m);
    of_optional = λ f o. optional f o;
    kind = kind;
    find = find;
    contains = λ t k. is_some (find t k);
    at = λ t k. or_throw (find t k);
    index = λ t k. or_null (find t k);
    value = λ get t k a. value get t k a;
    assign = assign;
    items = items;
    elements = elements;
    get_bool = get_bool;
    get_string = get_string;
    get_uint64 = get_uint;
    get_uint32 = get_uint;
    get_int64 = get_int;
    get_double = get_double;
    get_array = λ get t. get_array get t;
    get_map = λ get t. get_map get t;
  }
