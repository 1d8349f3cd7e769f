-- ===== src/Host/Frees.antt =====
-- How often a string of the FFI is freed.
use statsig_cpp_core.Prelude.{
  ℕ, suc, ◌≡◌, refl, ◌∙◌, List, [], ◌∷◌, Result, ok, throw, ◌==◌, if◌then◌else◌, arith, Bool,
  Option, none, some, String,
}
use statsig_cpp_core.Prelude.Effects.{Exec, ◌>>=◌, try_catch, pure, lift}
use statsig_cpp_core.Slots
use statsig_cpp_core.Host.{
  Faults, report, free_args, consume_args, load_callbacks, World, Event, freed, created, released,
  exhausted, not_registered, callback_failed,
}

-- The number of calls of `free_string` on `p`.
abbrev pub frees : ℕ → List Event → ℕ
frees p [] = 0
frees p (freed q ∷ es) = if q == p then suc (frees p es) else frees p es
frees p (created n ∷ es) = frees p es
frees p (released n ∷ es) = frees p es
frees p (exhausted ∷ es) = frees p es
frees p (not_registered ∷ es) = frees p es
frees p (callback_failed e ∷ es) = frees p es

module _ {U : Type 0} (p : ℕ) where
  -- A computation that frees `p` not at all, or exactly once, whether it returns or throws.
  pub record Keeps {A : Type 0} (m : Exec (World U) A) : Type 0 where
    pub at : (w : World U) → frees p (m w).1.events ≡ frees p w.events

  pub record FreesOnce {A : Type 0} (m : Exec (World U) A) : Type 0 where
    pub at : (w : World U) → frees p (m w).1.events ≡ suc (frees p w.events)

  pub Keeps-pure : {A : Type 0} (a : A) → Keeps (pure a)
  Keeps-pure a = record { at = λ w. refl }

  pub Keeps-lift : {A : Type 0} (r : Result A) → Keeps (lift r)
  Keeps-lift r = record { at = λ w. refl }

  continue-frees :
      {A B : Type 0} (m : Exec (World U) A) (f : A → Exec (World U) B)
      → ((a : A) → Keeps (f a))
      → (w : World U) (r : Result A) (w' : World U) → m w ≡ (r, w')
      → frees p ((m >>= f) w).1.events ≡ frees p w'.events
  continue-frees m f h w (ok a) w' e = rw e ((h a).at w')
  continue-frees m f h w (throw x) w' e = rw e refl

  pub Keeps-bind :
      {A B : Type 0} (m : Exec (World U) A) (f : A → Exec (World U) B)
      → Keeps m
      → ((a : A) → Keeps (f a))
      → Keeps (m >>= f)
  Keeps-bind m f k h = record { at = λ w. continue-frees m f h w (m w).0 (m w).1 refl ∙ k.at w }

  pub Keeps-lift_bind :
      {A B : Type 0} (r : Result A) (f : A → Exec (World U) B)
      → ((a : A) → Keeps (f a))
      → Keeps (lift r >>= f)
  Keeps-lift_bind r f h = Keeps-bind (lift r) f (Keeps-lift r) h

  pub FreesOnce-bind :
      {A B : Type 0} (m : Exec (World U) A) (f : A → Exec (World U) B)
      → FreesOnce m
      → ((a : A) → Keeps (f a))
      → FreesOnce (m >>= f)
  FreesOnce-bind m f k h = record { at = λ w. continue-frees m f h w (m w).0 (m w).1 refl ∙ k.at w }

  pub Keeps-if :
      {A : Type 0} (b : Bool) (m n : Exec (World U) A)
      → Keeps m
      → Keeps n
      → Keeps (if b then m else n)
  Keeps-if Bool.true m n k l = k
  Keeps-if Bool.false m n k l = l

  -- A first part that returns and changes nothing.
  pub FreesOnce-after :
      {A B : Type 0} (m : Exec (World U) A) (f : A → Exec (World U) B)
      → ((w : World U) → (a : A) × (m w ≡ (ok a, w)))
      → ((a : A) → FreesOnce (f a))
      → FreesOnce (m >>= f)
  FreesOnce-after m f h k = record { at = λ w. let (a, e) = h w in rw e ((k a).at w) }

  try-frees :
      {A : Type 0} (m : Exec (World U) A) (a : A) (w : World U) (r : Result A) (w' : World U)
      → m w ≡ (r, w')
      → frees p (try_catch m (report a) w).1.events ≡ frees p w'.events
  try-frees m a w (ok b) w' e = rw e refl
  try-frees m a w (throw x) w' e = rw e refl

  pub Keeps-try :
      {A : Type 0} (m : Exec (World U) A) (a : A) → Keeps m → Keeps (try_catch m (report a))
  Keeps-try m a k = record { at = λ w. try-frees m a w (m w).0 (m w).1 refl ∙ k.at w }

  pub FreesOnce-try :
      {A : Type 0} (m : Exec (World U) A) (a : A) → FreesOnce m → FreesOnce (try_catch m (report a))
  FreesOnce-try m a k = record { at = λ w. try-frees m a w (m w).0 (m w).1 refl ∙ k.at w }

  pub FreesOnce-free_args : FreesOnce (free_args (some p))
  unfolding free_args
  FreesOnce-free_args = record { at = λ w. ground arith }

  pub FreesOnce-consume_args :
      (faults : Faults) (memory : ℕ → ℕ → String) (n : ℕ)
      → faults.alloc ≡ none
      → FreesOnce (consume_args faults memory (some p) n)
  unfolding consume_args free_args
  FreesOnce-consume_args faults memory n alloc = record { at = λ w. rw alloc (ground arith) }

  pub load_callbacks_returns :
      (faults : Faults) (slot : ℕ)
      → faults.lock ≡ none
      → (w : World U) → (a : Option ℕ) × (load_callbacks faults slot w ≡ (ok a, w))
  unfolding load_callbacks
  load_callbacks_returns faults slot lock w = (Slots.load_callbacks w.slots slot, rw lock refl)
