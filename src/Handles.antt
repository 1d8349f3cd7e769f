-- ===== src/Handles.antt =====
-- src/user.cpp and src/options.cpp: the handles `User` and `StatsigOptions`. Each is a ref that its
-- destructor releases. Neither declares a copy, so that the compiler makes them: they copy the ref.
-- As both declare a destructor, a move is a copy.
pub mod Balance
use statsig_cpp_core.Prelude.{
  ℕ, ◌≡◌, ◌≢◌, Option, some, List, [], ◌∷◌, set, get_elem?, remove_at, ◌==◌, if◌then◌else◌,
}

-- `live` are the refs of the objects that are alive; `issued` and `released` are the refs that the
-- native library has returned and those that it has been told to release, newest first.
pub record Handles : Type 0 where
  pub live : List ℕ
  pub issued : List ℕ
  pub released : List ℕ

-- `User(ref)`, with the ref that `build()` has got.
unfoldable pub construct : ℕ → Handles → Handles
construct ref p = record p { live = ref ∷ p.live; issued = ref ∷ p.issued }

unfoldable pub release : ℕ → Handles → Handles
release ref p = if ref == 0 then p else record p { released = ref ∷ p.released }

-- `~User()` of the object at place `i`.
unfoldable pub destroy : ℕ → ℕ → Handles → Handles
unfolding release
destroy i ref p = let p' : Handles = release ref p in record p' { live = remove_at i p'.live }

-- The implicit copy constructor, from an object with this ref, and the implicit assignment to the
-- object at place `i`.
unfoldable pub copy_construct : ℕ → Handles → Handles
copy_construct ref p = record p { live = ref ∷ p.live }

unfoldable pub copy_assign : ℕ → ℕ → Handles → Handles
copy_assign i ref p = record p { live = set p.live i ref }

pub data Step (p : Handles) : Handles → Type 0 where
  constructs : (ref : ℕ) → Step p (construct ref p)
  destroys : (i ref : ℕ) → get_elem? p.live i ≡ some ref → Step p (destroy i ref p)
  copies : (j ref : ℕ) → get_elem? p.live j ≡ some ref → Step p (copy_construct ref p)
  assigns :
      (i j old ref : ℕ)
      → get_elem? p.live i ≡ some old
      → get_elem? p.live j ≡ some ref
      → Step p (copy_assign i ref p)

-- No object with the ref `r` is copied, assigned to or assigned from.
abbrev pub Spares : ℕ → {p q : Handles} → Step p q → Type 0
Spares r (constructs ref) = Unit
Spares r (destroys i ref e) = Unit
Spares r (copies j ref e) = ref ≢ r
Spares r (assigns i j old ref e f) = (old ≢ r) × (ref ≢ r)

pub data Reach (r : ℕ) (p : Handles) : Handles → Type 0 where
  here : Reach r p p
  next : {q s : Handles} → Reach r p q → (step : Step q s) → Spares r step → Reach r p s

abbrev pub no_handles : Handles
no_handles = record { live = []; issued = []; released = [] }
