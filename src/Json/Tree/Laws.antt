-- ===== src/Json/Tree/Laws.antt =====
-- The trees of `Json.Tree` obey `JsonLaws`, whatever reads and writes the texts.
use statsig_cpp_core.Prelude.{
  String, ◌≡◌, refl, ap, true, false, none, some, lookup-insert, insert, lookup-dedup,
  dedup-IsUnique, IsUnique, arith, Result, ok, throw, json_exception, if◌then◌else◌, str_eq,
}
use statsig_cpp_core.Json.{JsonLaws, CastLaws, is_object_kind, is_string_kind, is_boolean_kind}
use statsig_cpp_core.Json.Tree.{
  Tree, object, null, bool, string, uint, int, double, array, of_elements-to_elements,
  of_entries-to_entries, tree_api, of_entries, items, kind, find, or_null, or_throw, assign, value,
  get_string, get_bool,
}

find_no_object : (t : Tree) (k : String) → is_object_kind (kind t) ≡ false → find t k ≡ none
find_no_object (object m) k h = cc
find_no_object _ k h = refl

find-assign :
    (t : Tree) (k i : String) (v : Tree)
    → is_object_kind (kind t) ≡ true
    → find (assign t k v) i ≡ (if str_eq k i then some v else find t i)
find-assign (object m) k i v h = rw of_entries-to_entries (
    ground (
      arith,
      lookup-dedup i (insert k v (of_entries m)),
      lookup-insert k i v (of_entries m),
      lookup-dedup i (of_entries m),
    ))
find-assign null k i v h = cc
find-assign (bool b) k i v h = cc
find-assign (string s) k i v h = cc
find-assign (uint n) k i v h = cc
find-assign (int z) k i v h = cc
find-assign (double d) k i v h = cc
find-assign (array l) k i v h = cc

kind-assign :
    (t : Tree) (k : String) (v : Tree)
    → is_object_kind (kind t) ≡ true
    → is_object_kind (kind (assign t k v)) ≡ true
kind-assign (object m) k v h = refl
kind-assign _ k v h = h

get_string_reads :
    (t : Tree) → is_string_kind (kind t) ≡ true → (s : String) × (get_string t ≡ ok s)
get_string_reads (string s) h = (s, refl)
get_string_reads null h = cc
get_string_reads (bool b) h = cc
get_string_reads (uint n) h = cc
get_string_reads (int z) h = cc
get_string_reads (double d) h = cc
get_string_reads (array l) h = cc
get_string_reads (object m) h = cc

get_string_refuses :
    (t : Tree) → is_string_kind (kind t) ≡ false → get_string t ≡ throw json_exception
get_string_refuses (string s) h = cc
get_string_refuses _ h = refl

get_bool_refuses : (t : Tree) → is_boolean_kind (kind t) ≡ false → get_bool t ≡ throw json_exception
get_bool_refuses (bool b) h = cc
get_bool_refuses _ h = refl

value_found :
    {A : Type 0} (get : Tree → Result A) (t : Tree) (k : String) (a : A) (v : Tree)
    → find t k ≡ some v
    → value get t k a ≡ get v
value_found get (object m) k a v h = rw h refl
value_found get null k a v h = cc
value_found get (bool b) k a v h = cc
value_found get (string s) k a v h = cc
value_found get (uint n) k a v h = cc
value_found get (int z) k a v h = cc
value_found get (double d) k a v h = cc
value_found get (array l) k a v h = cc

items-IsUnique : (t : Tree) → IsUnique (items t)
items-IsUnique (object m) = dedup-IsUnique (of_entries m)
items-IsUnique null = tt
items-IsUnique (bool b) = tt
items-IsUnique (string s) = tt
items-IsUnique (uint n) = tt
items-IsUnique (int z) = tt
items-IsUnique (double d) = tt
items-IsUnique (array l) = tt

pub tree_laws :
    (read : String → Result Tree) (write : Tree → Result String) → JsonLaws (tree_api read write)
tree_laws read write = record {
  kind-null = refl;
  kind-of_bool = λ b. refl;
  kind-of_string = λ s. refl;
  kind-of_uint = λ n. refl;
  kind-of_int = λ z. refl;
  kind-of_double = λ d. refl;
  kind-of_array = λ l. refl;
  kind-of_object = λ m. refl;
  of_optional-none = λ f. refl;
  of_optional-some = λ f a. refl;
  find-of_object = λ m k. rw of_entries-to_entries (lookup-dedup k m);
  find_no_object = find_no_object;
  contains-find = λ t k. refl;
  index_found = λ t k v h. ap or_null h;
  at_found = λ t k v h. ap or_throw h;
  at_missing = λ t k h. ap or_throw h;
  value_no_object = λ get t k a h. rw h refl;
  value_found = λ get t k a v h. value_found get t k a v h;
  value_missing = λ get t k a o h. rw (o, h) refl;
  kind-assign = kind-assign;
  find-assign = find-assign;
  lookup-items = λ t k h. refl;
  items-IsUnique = items-IsUnique;
  elements-of_array = λ l. of_elements-to_elements l;
  get_bool-of_bool = λ b. refl;
  get_string-of_string = λ s. refl;
  get_uint64-of_uint = λ n h. refl;
  get_uint32-of_uint = λ n h. refl;
  get_int64-of_int = λ z h. refl;
  get_double-of_double = λ d. refl;
  get_string_reads = get_string_reads;
  get_string_refuses = get_string_refuses;
  get_bool_refuses = get_bool_refuses;
  get_array_lem = λ f t h. rw h refl;
  get_array_refuses = λ f t h. rw h refl;
  get_map_lem = λ f t h. rw h refl;
  get_map_refuses = λ f t h. rw h refl;
}

pub tree_casts :
    (read : String → Result Tree) (write : Tree → Result String) → CastLaws (tree_api read write)
tree_casts read write = record { get_int64-of_uint = λ n h. refl }
