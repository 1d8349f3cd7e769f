-- ===== src/Prelude/Maps.antt =====
-- `std::unordered_map<std::string, V>` as an association list. The first entry of a key counts;
-- the order of the list stands for the unspecified order of iteration.
use Prim.Native.String.{String}
use mathlib.Core.Path.{◌≡◌, refl, sym}
use mathlib.Core.Bool.{false}
use mathlib.Core.Option.{Option, none, some}
use mathlib.Core.List.{List, [], ◌∷◌}
use native.Mathlib.Omega.{arith}
use text.Mathlib.Text.{◌==◌}
use text.Mathlib.TextEquality.{eq_iff}
use mathlib.Core.Logic.{inl, inr}
use package.statsig_cpp_core.Prelude.Tests.{if◌then◌else◌, Bool-cases}

abbrev pub Dict {ℓ} : Type ℓ → Type ℓ
Dict V = List (String × V)

module _ {ℓ} {V : Type ℓ} where
  abbrev pub lookup : String → Dict V → Option V
  lookup k [] = none
  lookup k ((j, v) ∷ m) = if j == k then some v else lookup k m

  -- `m[k] = v`
  abbrev pub insert : String → V → Dict V → Dict V
  insert k v [] = (k, v) ∷ []
  insert k v ((j, w) ∷ m) = if j == k then (k, v) ∷ m else (j, w) ∷ insert k v m

  -- `m.emplace(k, v)`: an entry that is there stays.
  abbrev pub emplace : String → V → Dict V → Dict V
  emplace k v [] = (k, v) ∷ []
  emplace k v ((j, w) ∷ m) = if j == k then (j, w) ∷ m else (j, w) ∷ emplace k v m

  pub lookup-insert :
      (k j : String) (v : V) (m : Dict V)
      → lookup j (insert k v m) ≡ (if k == j then some v else lookup j m)
  lookup-insert k j v [] = refl
  lookup-insert k j v ((i, w) ∷ m) =
      ground (arith, eq_iff k j, eq_iff i k, eq_iff i j, lookup-insert k j v m)

-- No key twice.
abbrev pub IsUnique : {V : Type 0} → Dict V → Type 0
IsUnique [] = Unit
IsUnique ((k, v) ∷ m) = (lookup k m ≡ none) × IsUnique m

module _ {V : Type 0} where
  abbrev pub erase : String → Dict V → Dict V
  erase k [] = []
  erase k ((j, v) ∷ m) = let rest = erase k m in if j == k then rest else (j, v) ∷ rest

  -- The first entry of each key.
  abbrev pub dedup : Dict V → Dict V
  dedup [] = []
  dedup ((k, v) ∷ m) = (k, v) ∷ erase k (dedup m)

  pub lookup-erase :
      (k i : String) (m : Dict V) → lookup i (erase k m) ≡ (if k == i then none else lookup i m)
  lookup-erase k i [] = ground arith
  lookup-erase k i ((j, v) ∷ m) =
      ground (arith, eq_iff k i, eq_iff j k, eq_iff j i, lookup-erase k i m)

  pub lookup-dedup : (i : String) (m : Dict V) → lookup i (dedup m) ≡ lookup i m
  lookup-dedup i [] = refl
  lookup-dedup i ((k, v) ∷ m) = ground (arith, lookup-erase k i (dedup m), lookup-dedup i m)

  IsUnique-erase : (k : String) (m : Dict V) → IsUnique m → IsUnique (erase k m)
  IsUnique-erase k [] h = tt
  IsUnique-erase k ((j, v) ∷ m) h = elim (Bool-cases (j == k)) [
    | inl e ↦ rw e (IsUnique-erase k m h.1)
    | inr e ↦ rw e (ground (arith, lookup-erase k j m, h.0), IsUnique-erase k m h.1)
  ]

  pub dedup-IsUnique : (m : Dict V) → IsUnique (dedup m)
  dedup-IsUnique [] = tt
  dedup-IsUnique ((k, v) ∷ m) = (
    ground (arith, eq_iff k k, lookup-erase k k (dedup m)),
    IsUnique-erase k (dedup m) (dedup-IsUnique m),
  )

-- The first of two, if there is one.
abbrev pub over : {A : Type 0} → Option A → Option A → Option A
over none o = o
over (some a) o = some a

pub over-none : {A : Type 0} (o : Option A) → over o none ≡ o
over-none none = refl
over-none (some a) = refl

pub lookup-emplace :
    {V : Type 0} (k i : String) (v : V) (m : Dict V)
    → lookup i (emplace k v m) ≡ over (lookup i m) (if k == i then some v else none)
lookup-emplace k i v [] = refl
lookup-emplace k i v ((j, w) ∷ m) = elim (Bool-cases (j == k)) [
  | inl e ↦ elim (Bool-cases (j == i)) [
    | inl f ↦ rw (e, f) refl
    | inr f ↦
        let other : (k == i) ≡ false = ground (arith, eq_iff j k, eq_iff k i, eq_iff j i) in
        rw (e, f, other) (sym (over-none (lookup i m)))
  ]
  | inr e ↦ elim (Bool-cases (j == i)) [
    | inl f ↦ rw (e, f) refl
    | inr f ↦ rw (e, f) (lookup-emplace k i v m)
  ]
]
