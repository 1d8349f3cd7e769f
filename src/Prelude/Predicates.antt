-- ===== src/Prelude/Predicates.antt =====
-- Predicates on the elements of a list, and removal of one element.
use Prim.Native.Nat.{ℕ, zero, suc, ◌+◌}
use native.Mathlib.Omega.{arith}
use mathlib.Core.Path.{◌≡◌, subst, ap}
use mathlib.Core.List.{List, [], ◌∷◌}
use mathlib.Core.Option.{some, some-injective}
use package.statsig_cpp_core.Prelude.Lists.{get_elem?, count, one, count-cons}

module _ {A : Type 0} where
  abbrev pub All : (A → Type 0) → List A → Type 0
  All P [] = Unit
  All P (x ∷ xs) = P x × All P xs

  -- Each two elements at different places are related.
  abbrev pub Pairwise : (A → A → Type 0) → List A → Type 0
  Pairwise R [] = Unit
  Pairwise R (x ∷ xs) = All (R x) xs × Pairwise R xs

  abbrev pub remove_at : ℕ → List A → List A
  remove_at i [] = []
  remove_at zero (x ∷ xs) = xs
  remove_at (suc i) (x ∷ xs) = x ∷ remove_at i xs

  pub All-at :
      (P : A → Type 0) (xs : List A) (i : ℕ) (x : A) → get_elem? xs i ≡ some x → All P xs → P x
  All-at P [] i x e h = cc
  All-at P (y ∷ xs) zero x e h = subst P (some-injective y x e) h.0
  All-at P (y ∷ xs) (suc i) x e h = All-at P xs i x e h.1

  pub All-map : (P Q : A → Type 0) → ((x : A) → P x → Q x) → (xs : List A) → All P xs → All Q xs
  All-map P Q f [] h = tt
  All-map P Q f (x ∷ xs) h = (f x h.0, All-map P Q f xs h.1)

  pub All-map₂ :
      (P Q R : A → Type 0)
      → ((x : A) → P x → Q x → R x)
      → (xs : List A) → All P xs
      → All Q xs
      → All R xs
  All-map₂ P Q R f [] h k = tt
  All-map₂ P Q R f (x ∷ xs) h k = (f x h.0 k.0, All-map₂ P Q R f xs h.1 k.1)

  pub All-remove_at : (P : A → Type 0) (xs : List A) (i : ℕ) → All P xs → All P (remove_at i xs)
  All-remove_at P [] i h = tt
  All-remove_at P (x ∷ xs) zero h = h.1
  All-remove_at P (x ∷ xs) (suc i) h = (h.0, All-remove_at P xs i h.1)

  pub Pairwise-remove_at :
      (R : A → A → Type 0) (xs : List A) (i : ℕ) → Pairwise R xs → Pairwise R (remove_at i xs)
  Pairwise-remove_at R [] i h = tt
  Pairwise-remove_at R (x ∷ xs) zero h = h.1
  Pairwise-remove_at R (x ∷ xs) (suc i) h =
      (All-remove_at (R x) xs i h.0, Pairwise-remove_at R xs i h.1)

  -- A symmetric relation holds between an element and all that stay when it is removed.
  pub Pairwise-others :
      (R : A → A → Type 0)
      → ((x y : A) → R x y → R y x)
      → (xs : List A) (i : ℕ) (x : A) → get_elem? xs i ≡ some x
      → Pairwise R xs
      → All (R x) (remove_at i xs)
  Pairwise-others R s [] i x e h = cc
  Pairwise-others R s (y ∷ xs) zero x e h = subst (λ z. All (R z) xs) (some-injective y x e) h.0
  Pairwise-others R s (y ∷ xs) (suc i) x e h =
      (s y x (All-at (R y) xs i x e h.0), Pairwise-others R s xs i x e h.1)

pub count-remove_at :
    (n : ℕ) (xs : List ℕ) (i x : ℕ)
    → get_elem? xs i ≡ some x
    → count n (remove_at i xs) + one n x ≡ count n xs
count-remove_at n [] i x e = cc
count-remove_at n (y ∷ xs) zero x e =
    omega (arith, count-cons n y xs, ap (one n) (some-injective y x e))
count-remove_at n (y ∷ xs) (suc i) x e =
    omega (arith, count-cons n y xs, count-cons n y (remove_at i xs), count-remove_at n xs i x e)
