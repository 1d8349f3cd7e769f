-- ===== src/Json/Entries.antt =====
-- Maps as JSON objects: what the entries of an object are decoded to.
use statsig_cpp_core.Prelude.{
  String, ◌≡◌, refl, ap, ◌∙◌, inl, inr, Option, none, some, some-injective, [], ◌∷◌, Dict, lookup,
  map, IsUnique, Result, ok, traverse, bind_ok, str_eq, eq_iff, if◌then◌else◌, arith, Bool-cases,
  true,
}
use statsig_cpp_core.Json.{JsonApi, JsonLaws, is_object, is_some, convert_entry}

abbrev pub map_some : {A B : Type 0} → (A → B) → Option A → Option B
map_some f none = none
map_some f (some a) = some (f a)

pub lookup-map :
    {A B : Type 0} (f : A → B) (k : String) (m : Dict A)
    → lookup k (map (λ e. (e.0, f e.1)) m) ≡ map_some f (lookup k m)
lookup-map f k [] = refl
lookup-map f k ((j, v) ∷ m) = ground (arith, lookup-map f k m)

abbrev pub without : {A : Type 0} → String → (String → Option A) → String → Option A
without k g i = if str_eq k i then none else g i

-- The entries hold the encoded values of a map, which `g` looks up, each once.
abbrev pub Encodes : {A J : Type 0} → (A → J) → Dict J → (String → Option A) → Type 0
Encodes f entries g = IsUnique entries × ((i : String) → lookup i entries ≡ map_some f (g i))

module _ {A J : Type 0} (f : A → J) where
  map_some-some :
      (o : Option A) (j : J) → some j ≡ map_some f o → (a : A) × (o ≡ some a) × (j ≡ f a)
  map_some-some none j e = cc
  map_some-some (some a) j e = (a, refl, some-injective j (f a) e)

  pub map_some-none : (o : Option A) → none ≡ map_some f o → none ≡ o
  map_some-none none e = refl
  map_some-none (some a) e = cc

  -- The first entry, and the others.
  pub Encodes-uncons :
      (k : String) (j : J) (rest : Dict J) (g : String → Option A)
      → Encodes f ((k, j) ∷ rest) g
      → (a : A) × (g k ≡ some a) × (j ≡ f a) × Encodes f rest (without k g)
  Encodes-uncons k j rest g ((fresh, unique), spec) =
      let (a, e, same) = map_some-some (g k) j (ground (arith, spec k, eq_iff k k)) in
      (
        a,
        e,
        same,
        (
          unique,
          λ i. elim (Bool-cases (str_eq k i)) [
            | inl eq ↦ rw eq (ground (arith, fresh, eq_iff k i))
            | inr ne ↦ rw ne (ground (arith, spec i))
          ],
        ),
      )

-- A map is decoded entry by entry.
pub entries_decoded :
    {A J : Type 0} (f : A → J) (get : J → Result A) (entries : Dict J) (g : String → Option A)
    → Encodes f entries g
    → ((i : String) (a : A) → g i ≡ some a → get (f a) ≡ ok a)
    → (m : Dict A) × (traverse (convert_entry get) entries ≡ ok m)
      × ((i : String) → lookup i m ≡ g i)
entries_decoded f get [] g (_, spec) h = ([], refl, λ i. map_some-none f (g i) (spec i))
entries_decoded f get ((k, j) ∷ rest) g e h =
    let (a, found, same, others) = Encodes-uncons f k j rest g e in
    let (m, decoded, spec) =
      entries_decoded f get rest (without k g) others (λ i b e. h i b (ground (arith, e))) in
    (
      (k, a) ∷ m,
      bind_ok _ (bind_ok _ (ap get same ∙ h k a found) refl) (bind_ok _ decoded refl),
      λ i. ground (arith, spec i, found, eq_iff k i),
    )

traverse_entries : {A : Type 0} (m : Dict A) → traverse (convert_entry (λ (a : A). ok a)) m ≡ ok m
traverse_entries [] = refl
traverse_entries ((k, v) ∷ m) = bind_ok _ (traverse_entries m) refl

module _ (api : JsonApi) (laws : JsonLaws api) where
  -- An object's entries are those that it finds.
  pub items-Encodes :
      {A : Type 0} (f : A → api.Json) (j : api.Json) (g : String → Option A)
      → is_object api j ≡ true
      → ((i : String) → api.find j i ≡ map_some f (g i))
      → Encodes f (api.items j) g
  items-Encodes f j g object h = (laws.items-IsUnique j, λ i. laws.lookup-items j i object ∙ h i)

  -- An entry of an object, and all of them.
  pub contains-of_object :
      (m : Dict api.Json) (k : String) (v : api.Json)
      → lookup k m ≡ some v
      → (api.contains (api.of_object m) k ≡ true) × (api.index (api.of_object m) k ≡ v)
  contains-of_object m k v e =
      let found = laws.find-of_object m k ∙ e in
      (
        laws.contains-find (api.of_object m) k ∙ ap is_some found,
        laws.index_found (api.of_object m) k v found,
      )

  pub get_map-of_object :
      (m : Dict api.Json)
      → api.get_map (λ a. ok a) (api.of_object m) ≡ ok (api.items (api.of_object m))
  get_map-of_object m =
      laws.get_map_lem (λ a. ok a) (api.of_object m) (rw (laws.kind-of_object m) refl)
      ∙ traverse_entries (api.items (api.of_object m))
