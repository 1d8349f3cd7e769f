-- ===== src/Prelude/Effects.antt =====
-- Computations that change a state `W` and return or throw.
use mathlib.Core.Path.{◌≡◌, refl}
use package.statsig_cpp_core.Prelude.Results.{Exn, Result, ok, throw}

abbrev pub Exec {ℓ κ} : Type ℓ → Type κ → Type (ℓ ⊔ κ)
Exec W A = W → Result A × W

module _ {ℓ κ} {W : Type ℓ} {A : Type κ} where
  abbrev pub pure : A → Exec W A
  pure a w = (ok a, w)

  abbrev pub raise : Exn → Exec W A
  raise e w = (throw e, w)

  abbrev pub lift : Result A → Exec W A
  lift r w = (r, w)

  abbrev recover : (Exn → Exec W A) → Result A × W → Result A × W
  recover h (ok a, w) = (ok a, w)
  recover h (throw e, w) = h e w

  -- `try { m } catch (…) { h }`
  abbrev pub try_catch : Exec W A → (Exn → Exec W A) → Exec W A
  try_catch m h w = recover h (m w)

-- A state change that returns nothing.
abbrev pub modify {ℓ} : {W : Type ℓ} → (W → W) → Exec W (Unit {0})
modify f w = (ok tt, f w)

module _ {ℓ κ ι} {W : Type ℓ} {A : Type κ} {B : Type ι} where
  abbrev continue : (A → Exec W B) → Result A × W → Result B × W
  continue f (ok a, w) = f a w
  continue f (throw e, w) = (throw e, w)

  infixl 5 ◌>>=◌
  abbrev pub ◌>>=◌ : Exec W A → (A → Exec W B) → Exec W B
  ◌>>=◌ m f w = continue f (m w)

  continue-state : (g : A → B) (r : Result A × W) → (continue (λ a. pure (g a)) r).1 ≡ r.1
  continue-state g (ok a, w) = refl
  continue-state g (throw e, w) = refl

  -- A change of the result alone leaves the state.
  pub bind_pure-state : (m : Exec W A) (g : A → B) (w : W) → ((m >>= λ a. pure (g a)) w).1 ≡ (m w).1
  bind_pure-state m g w = continue-state g (m w)

module _ {ℓ ι} {W : Type ℓ} {B : Type ι} where
  infixl 5 ◌>>◌
  abbrev pub ◌>>◌ : Exec W (Unit {0}) → Exec W B → Exec W B
  m >> k = m >>= λ _. k

-- A step of a `do` block whose first part is known to return, and a `try` whose body is.
pub run_bind {ℓ κ ι} :
    {W : Type ℓ} {A : Type κ} {B : Type ι} (m : Exec W A) (f : A → Exec W B) (w : W) {a : A}
    {w' : W} {r : Result B × W}
    → m w ≡ (ok a, w')
    → f a w' ≡ r
    → (m >>= f) w ≡ r
run_bind m f w e h = rw e h

pub run_try {ℓ κ} :
    {W : Type ℓ} {A : Type κ} (m : Exec W A) (h : Exn → Exec W A) (w : W) {a : A} {w' : W}
    → m w ≡ (ok a, w')
    → try_catch m h w ≡ (ok a, w')
run_try m h w e = rw e refl
