-- ===== src/Prelude/Results.antt =====
-- Exceptions as values.
use mathlib.Core.Path.{◌≡◌, refl}
use mathlib.Core.List.{List, [], ◌∷◌, map}

-- The exceptions that some handler of the program tells apart: nlohmann's, the other descendants of
-- `std::exception`, and the rest.
pub data Exn : Type 0 where
  json_exception std_exception non_std : Exn

pub data Result {ℓ} (A : Type ℓ) : Type ℓ where
  ok : A → Result A
  throw : Exn → Result A

infixl 5 ◌>>=◌
abbrev pub ◌>>=◌ {ℓ κ} : {A : Type ℓ} {B : Type κ} → Result A → (A → Result B) → Result B
ok a >>= f = f a
throw e >>= f = throw e

-- Runs the list's actions in order, up to the first exception.
abbrev pub traverse {ℓ κ} : {A : Type ℓ} {B : Type κ} → (A → Result B) → List A → Result (List B)
traverse f [] = ok []
traverse f (x ∷ xs) = do y ← f x; ys ← traverse f xs; ok (y ∷ ys)

-- Decoding undoes encoding on a list when it does so on each element.
pub traverse-map {ℓ κ} :
    {A : Type ℓ} {B : Type κ} (f : B → Result A) (g : A → B)
    → ((a : A) → f (g a) ≡ ok a)
    → (xs : List A) → traverse f (map g xs) ≡ ok xs
traverse-map f g h [] = refl
traverse-map f g h (x ∷ xs) = rw (h x, traverse-map f g h xs) refl

-- A step of a `do` block whose first part is known to return.
pub bind_ok {ℓ κ} :
    {A : Type ℓ} {B : Type κ} {m : Result A} {a : A} (f : A → Result B) {r : Result B}
    → m ≡ ok a
    → f a ≡ r
    → (m >>= f) ≡ r
bind_ok f e h = rw e h
