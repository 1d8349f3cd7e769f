-- ===== src/Prelude/Lists.antt =====
-- Lists measured and indexed by native numbers, under the library's names.
use Prim.Native.Nat.{ℕ, zero, suc, ◌+◌, ◌<◌}
use mathlib.Core.Path.{◌≡◌, refl, ap, ◌∙◌}
use mathlib.Core.Logic.{◌≢◌}
use mathlib.Core.List.{List, [], ◌∷◌, map}
use mathlib.Core.Option.{Option, none, some}
use native.Mathlib.Omega.{arith}
use package.statsig_cpp_core.Prelude.Tests.{◌==◌, if◌then◌else◌}

module _ {ℓ} {A : Type ℓ} where
  abbrev pub length : List A → ℕ
  length [] = 0
  length (x ∷ xs) = suc (length xs)

  abbrev pub get_elem? : List A → ℕ → Option A
  get_elem? [] i = none
  get_elem? (x ∷ xs) zero = some x
  get_elem? (x ∷ xs) (suc i) = get_elem? xs i

  -- A write out of bounds changes nothing.
  abbrev pub set : List A → ℕ → A → List A
  set [] i v = []
  set (x ∷ xs) zero v = v ∷ xs
  set (x ∷ xs) (suc i) v = x ∷ set xs i v

  abbrev pub replicate : ℕ → A → List A
  replicate zero a = []
  replicate (suc n) a = a ∷ replicate n a

  pub length-set : (xs : List A) (i : ℕ) (v : A) → length (set xs i v) ≡ length xs
  length-set [] i v = refl
  length-set (x ∷ xs) zero v = refl
  length-set (x ∷ xs) (suc i) v = ap suc (length-set xs i v)

  pub length-replicate : (n : ℕ) (a : A) → length (replicate n a) ≡ n
  length-replicate zero a = refl
  length-replicate (suc n) a = ap suc (length-replicate n a)

  pub get_elem?-set_self :
      (xs : List A) (i : ℕ) (v : A) → i < length xs → get_elem? (set xs i v) i ≡ some v
  get_elem?-set_self [] i v h = elim h [ ]
  get_elem?-set_self (x ∷ xs) zero v h = refl
  get_elem?-set_self (x ∷ xs) (suc i) v h = get_elem?-set_self xs i v (omega arith)

  pub get_elem?-set_ne :
      (xs : List A) (i j : ℕ) (v : A) → i ≢ j → get_elem? (set xs i v) j ≡ get_elem? xs j
  get_elem?-set_ne [] i j v h = refl
  get_elem?-set_ne (x ∷ xs) zero zero v h = absurd (h refl)
  get_elem?-set_ne (x ∷ xs) zero (suc j) v h = refl
  get_elem?-set_ne (x ∷ xs) (suc i) zero v h = refl
  get_elem?-set_ne (x ∷ xs) (suc i) (suc j) v h = get_elem?-set_ne xs i j v (λ e. h (ap suc e))

-- `std::index_sequence`: the numbers from `i` on.
abbrev pub range_from : ℕ → ℕ → List ℕ
range_from i zero = []
range_from i (suc n) = i ∷ range_from (suc i) n

pub length-map-range_from {ℓ} :
    {A : Type ℓ} (f : ℕ → A) (i n : ℕ) → length (map f (range_from i n)) ≡ n
length-map-range_from f i zero = refl
length-map-range_from f i (suc n) = ap suc (length-map-range_from f (suc i) n)

pub get_elem?-map-range_from {ℓ} :
    {A : Type ℓ} (f : ℕ → A) (i n k : ℕ)
    → k < n
    → get_elem? (map f (range_from i n)) k ≡ some (f (i + k))
get_elem?-map-range_from f i zero k h = absurd (omega (arith, h))
get_elem?-map-range_from f i (suc n) zero h = ap (λ j. some (f j)) (omega arith)
get_elem?-map-range_from f i (suc n) (suc k) h =
    get_elem?-map-range_from f (suc i) n k (omega (arith, h)) ∙ ap (λ j. some (f j)) (omega arith)

pub get_elem?-map-range {ℓ} :
    {A : Type ℓ} (f : ℕ → A) (n k : ℕ) → k < n → get_elem? (map f (range_from 0 n)) k ≡ some (f k)
get_elem?-map-range f n k h =
    get_elem?-map-range_from f 0 n k h ∙ ap (λ j. some (f j)) (omega arith)

-- How often a number occurs.
abbrev pub count : ℕ → List ℕ → ℕ
count n [] = 0
count n (x ∷ xs) = if x == n then suc (count n xs) else count n xs

-- Whether a number is the one that is counted.
abbrev pub one : ℕ → ℕ → ℕ
one n x = if x == n then 1 else 0

pub count-cons : (n x : ℕ) (xs : List ℕ) → count n (x ∷ xs) ≡ one n x + count n xs
count-cons n x xs = ground arith

pub get_elem?-lt {ℓ} :
    {A : Type ℓ} (xs : List A) (i : ℕ) (x : A) → get_elem? xs i ≡ some x → i < length xs
get_elem?-lt [] i x e = cc
get_elem?-lt (y ∷ xs) zero x e = omega arith
get_elem?-lt (y ∷ xs) (suc i) x e = omega (arith, get_elem?-lt xs i x e)
