-- ===== src/Observer/Dispatch/Unwinding.antt =====
-- Which exceptions leave the functions that the native side calls.
use statsig_cpp_core.Prelude.{
  ℕ, String, ◌≡◌, refl, Bool, false, Option, none, some, Dict, Exn, Result, ok, throw,
}
use statsig_cpp_core.Prelude.Effects.{Exec, ◌>>=◌, try_catch}
use statsig_cpp_core.Json.{JsonApi}
use statsig_cpp_core.Slots
use statsig_cpp_core.Host.{World, Faults, member, report}
use statsig_cpp_core.Observer.Pool.{load_callbacks, free_args, consume_args}
use statsig_cpp_core.Observer.Pool.Held.{callbacks_loaded}
use statsig_cpp_core.Observer.Dispatch.{
  ObservabilityClientCallbacks, MetricKind, metric_fn, init_found, metric_found, error_found,
  enable_found, metric_body, error_body, dispatch_init, dispatch_metric, dispatch_error,
  dispatch_should_enable,
}

-- The call returns a value, in some state.
abbrev pub Returns : {A W : Type 0} → Result A × W → Type 0
Returns {A} r = (a : A) × (r.0 ≡ ok a)

module _ {U : Type 0} where
  try-Returns :
      {A : Type 0} (a : A) (m : Exec (World U) A) (w : World U) (r : Result A) (w' : World U)
      → m w ≡ (r, w')
      → Returns (try_catch m (report a) w)
  try-Returns a m w (ok b) w' e = (b, rw e refl)
  try-Returns a m w (throw x) w' e = (a, rw e refl)

  bind-Returns :
      {A B : Type 0} (m : Exec (World U) A) (f : A → Exec (World U) B) (w : World U) (a : A)
      (w' : World U)
      → m w ≡ (ok a, w')
      → Returns (f a w')
      → Returns ((m >>= f) w)
  bind-Returns m f w a w' e h = rw e h

module _ (api : JsonApi) {U : Type 0} (heap : ℕ → ObservabilityClientCallbacks api.Double U)
    (memory : ℕ → ℕ → String) where
  module _ (faults : Faults) (lock : faults.lock ≡ none) (alloc : faults.alloc ≡ none) where
    after-load :
        {A : Type 0} (slot : ℕ) (w : World U) (f : Option ℕ → Exec (World U) A)
        → Returns (f (Slots.load_callbacks w.slots slot) w)
        → Returns ((load_callbacks faults slot >>= f) w)
    after-load slot w f h =
        bind-Returns (load_callbacks faults slot) f w (Slots.load_callbacks w.slots slot) w
          (callbacks_loaded faults slot w lock) h

    free_args-Returns : (p : Option ℕ) (w : World U) → Returns (free_args p w)
    unfolding free_args
    free_args-Returns none w = (tt, refl)
    free_args-Returns (some p) w = (tt, refl)

    consume-Returns :
        {A : Type 0} (a : A) (p : Option ℕ) (n : ℕ) (m : String → Exec (World U) A) (w : World U)
        → Returns ((consume_args faults memory p n >>= (λ raw. try_catch (m raw) (report a))) w)
    unfolding consume_args free_args
    consume-Returns a none n m w = try-Returns a (m "") w _ _ refl
    consume-Returns a (some p) n m w = rw alloc (try-Returns a (m (memory p n)) _ _ _ refl)

    init_found-Returns :
        (o : Option (Exec (World U) (Unit {0}))) (w : World U)
        → Returns (init_found api heap faults memory o w)
    unfolding init_found
    init_found-Returns none w = (tt, refl)
    init_found-Returns (some f) w = try-Returns tt f w _ _ refl

    metric_found-Returns :
        (o : Option (String → api.Double → Dict String → Exec (World U) (Unit {0}))) (p : Option ℕ)
        (n : ℕ) (w : World U)
        → Returns (metric_found api heap faults memory o p n w)
    unfolding metric_found
    metric_found-Returns none p n w = free_args-Returns p w
    metric_found-Returns (some f) p n w =
        consume-Returns tt p n (metric_body api heap faults memory f) w

    error_found-Returns :
        (o : Option (String → String → Exec (World U) (Unit {0}))) (p : Option ℕ) (n : ℕ)
        (w : World U)
        → Returns (error_found api heap faults memory o p n w)
    unfolding error_found
    error_found-Returns none p n w = free_args-Returns p w
    error_found-Returns (some f) p n w =
        consume-Returns tt p n (error_body api heap faults memory f) w

    enable_found-Returns :
        (o : Option (String → Exec (World U) Bool)) (p : Option ℕ) (n : ℕ) (w : World U)
        → Returns (enable_found api heap faults memory o p n w)
    unfolding enable_found free_args
    enable_found-Returns none none n w = (false, refl)
    enable_found-Returns none (some p) n w = (false, refl)
    enable_found-Returns (some f) p n w = consume-Returns false p n f w

    -- If taking the lock and copying the arguments do not fail, each of dispatch_init,
    -- dispatch_metric, dispatch_error and dispatch_should_enable returns, whatever the slot, the
    -- arguments and the callbacks are: exceptions of the JSON library and of the callbacks do not
    -- unwind into the native caller.
    pub observer_noexcept :
        (slot : ℕ) (p : Option ℕ) (n : ℕ) (kind : MetricKind) (w : World U)
        → Returns (dispatch_init api heap faults memory slot w)
          × Returns (dispatch_metric api heap faults memory slot p n kind w)
          × Returns (dispatch_error api heap faults memory slot p n w)
          × Returns (dispatch_should_enable api heap faults memory slot p n w)
    unfolding dispatch_init dispatch_metric dispatch_error dispatch_should_enable
    observer_noexcept slot p n kind w =
        let cbs = Slots.load_callbacks w.slots slot in
        (
          after-load slot w (λ c. init_found api heap faults memory (member heap (λ c. c.init) c))
              (init_found-Returns (member heap (λ c. c.init) cbs) w),
          after-load slot w
              (λ c. metric_found api heap faults memory (member heap (metric_fn kind) c) p n)
              (metric_found-Returns (member heap (metric_fn kind) cbs) p n w),
          after-load slot w
              (λ c. error_found api heap faults memory (member heap (λ c. c.error) c) p n)
              (error_found-Returns (member heap (λ c. c.error) cbs) p n w),
          after-load slot w
              (λ c. enable_found api heap faults memory (member heap (λ c. c.should_enable) c) p n)
              (enable_found-Returns (member heap (λ c. c.should_enable) cbs) p n w),
        )

  -- An exception of the lock leaves dispatch_init, dispatch_metric, dispatch_error and
  -- dispatch_should_enable, for every slot, argument and state, and nothing of the state changes:
  -- the arguments are not freed.
  pub observer_unwinds :
      (faults : Faults) (x : Exn) (slot : ℕ) (p : Option ℕ) (n : ℕ) (kind : MetricKind)
      (w : World U)
      → faults.lock ≡ some x
      → (dispatch_init api heap faults memory slot w ≡ (throw x, w))
        × (dispatch_metric api heap faults memory slot p n kind w ≡ (throw x, w))
        × (dispatch_error api heap faults memory slot p n w ≡ (throw x, w))
        × (dispatch_should_enable api heap faults memory slot p n w ≡ (throw x, w))
  unfolding dispatch_init dispatch_metric dispatch_error dispatch_should_enable load_callbacks
  observer_unwinds faults x slot p n kind w h = (rw h refl, rw h refl, rw h refl, rw h refl)

  -- If the lock is taken, the slot has the callback of a metric kind and the copy of the arguments
  -- fails, dispatch_metric throws the exception of the copy, and the arguments are not freed.
  pub observer_copy_unwinds :
      (faults : Faults) (x : Exn) (slot c p n : ℕ) (kind : MetricKind)
      (f : String → api.Double → Dict String → Exec (World U) (Unit {0})) (w : World U)
      → faults.lock ≡ none
      → faults.alloc ≡ some x
      → Slots.load_callbacks w.slots slot ≡ some c
      → metric_fn kind (heap c) ≡ some f
      → dispatch_metric api heap faults memory slot (some p) n kind w ≡ (throw x, w)
  unfolding dispatch_metric load_callbacks consume_args Slots.load_callbacks
  observer_copy_unwinds faults x slot c p n kind f w lock alloc held has =
      rw (lock, held, has, alloc) refl
