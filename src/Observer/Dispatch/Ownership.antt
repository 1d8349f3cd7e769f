-- ===== src/Observer/Dispatch/Ownership.antt =====
-- The strings that the native side hands over are freed, once.
use statsig_cpp_core.Prelude.{ℕ, String, ◌≡◌, refl, Bool, false, Option, none, some, Dict}
use statsig_cpp_core.Prelude.Effects.{Exec, ◌>>=◌, try_catch}
use statsig_cpp_core.Json.{JsonApi}
use statsig_cpp_core.Host.{World, Faults, member, report}
use statsig_cpp_core.Observer.Pool.{free_args, consume_args}
use statsig_cpp_core.Observer.Pool.Held.{
  FreesOnce-free_args, FreesOnce-consume_args, load_callbacks_returns,
}
use statsig_cpp_core.Observer.Tags.{parse_tags}
use statsig_cpp_core.Observer.Dispatch.{
  ObservabilityClientCallbacks, MetricKind, metric_fn, metric_found, error_found, enable_found,
  metric_body, error_body, dispatch_metric, dispatch_error, dispatch_should_enable,
}
use statsig_cpp_core.Host.Frees.{
  Keeps, FreesOnce, Keeps-pure, Keeps-lift_bind, Keeps-try, FreesOnce-bind, FreesOnce-after,
}

module _ (api : JsonApi) {U : Type 0} (p : ℕ) where
  -- No callback frees the string at `p`.
  pub record LeavesAlone (cbs : ObservabilityClientCallbacks api.Double U) : Type 0 where
    pub metric :
        (kind : MetricKind) (f : String → api.Double → Dict String → Exec (World U) (Unit {0}))
        → metric_fn kind cbs ≡ some f
        → (name : String) (amount : api.Double) (tags : Dict String) → Keeps p (f name amount tags)
    pub error :
        (f : String → String → Exec (World U) (Unit {0}))
        → cbs.error ≡ some f
        → (tag error : String) → Keeps p (f tag error)
    pub should_enable :
        (f : String → Exec (World U) Bool)
        → cbs.should_enable ≡ some f
        → (tag : String) → Keeps p (f tag)

module _ (api : JsonApi) {U : Type 0} (heap : ℕ → ObservabilityClientCallbacks api.Double U)
    (faults : Faults) (memory : ℕ → ℕ → String) (p : ℕ) where
  metric_body-Keeps :
      (f : String → api.Double → Dict String → Exec (World U) (Unit {0})) (raw : String)
      → ((name : String) (amount : api.Double) (tags : Dict String) → Keeps p (f name amount tags))
      → Keeps p (metric_body api heap faults memory f raw)
  unfolding metric_body
  metric_body-Keeps f raw h = Keeps-lift_bind p (api.parse raw) _ (λ j.
      Keeps-lift_bind p (api.value api.get_string j "metric" "") _ (λ name.
        Keeps-lift_bind p (api.value api.get_double j "value" api.zero_double) _
          (λ amount. Keeps-lift_bind p (parse_tags api j) _ (λ tags. h name amount tags))))

  error_body-Keeps :
      (f : String → String → Exec (World U) (Unit {0})) (raw : String)
      → ((tag error : String) → Keeps p (f tag error))
      → Keeps p (error_body api heap faults memory f raw)
  unfolding error_body
  error_body-Keeps f raw h = Keeps-lift_bind p (api.parse raw) _ (λ j.
      Keeps-lift_bind p (api.value api.get_string j "tag" "") _
        (λ tag. Keeps-lift_bind p (api.value api.get_string j "error" "") _ (λ error. h tag error)))

module _ (api : JsonApi) {U : Type 0} (heap : ℕ → ObservabilityClientCallbacks api.Double U)
    (faults : Faults) (memory : ℕ → ℕ → String) (p : ℕ)
    (alone : (c : ℕ) → LeavesAlone api p (heap c)) (lock : faults.lock ≡ none)
    (alloc : faults.alloc ≡ none) where
  consume-FreesOnce :
      {A : Type 0} (a : A) (n : ℕ) (m : String → Exec (World U) A)
      → ((raw : String) → Keeps p (m raw))
      → FreesOnce p
          (consume_args faults memory (some p) n >>= (λ raw. try_catch (m raw) (report a)))
  consume-FreesOnce a n m h =
      FreesOnce-bind p _ _ (FreesOnce-consume_args faults p memory n alloc)
        (λ raw. Keeps-try p (m raw) a (h raw))

  metric_found-FreesOnce :
      (n : ℕ) (o : Option (String → api.Double → Dict String → Exec (World U) (Unit {0})))
      → ((f : String → api.Double → Dict String → Exec (World U) (Unit {0}))
          → o ≡ some f
          → (name : String) (amount : api.Double) (tags : Dict String)
          → Keeps p (f name amount tags))
      → FreesOnce p (metric_found api heap faults memory o (some p) n)
  unfolding metric_found
  metric_found-FreesOnce n none h = FreesOnce-free_args p
  metric_found-FreesOnce n (some f) h =
      consume-FreesOnce tt n (metric_body api heap faults memory f)
        (λ raw. metric_body-Keeps api heap faults memory p f raw (h f refl))

  error_found-FreesOnce :
      (n : ℕ) (o : Option (String → String → Exec (World U) (Unit {0})))
      → ((f : String → String → Exec (World U) (Unit {0}))
          → o ≡ some f
          → (tag error : String) → Keeps p (f tag error))
      → FreesOnce p (error_found api heap faults memory o (some p) n)
  unfolding error_found
  error_found-FreesOnce n none h = FreesOnce-free_args p
  error_found-FreesOnce n (some f) h =
      consume-FreesOnce tt n (error_body api heap faults memory f)
        (λ raw. error_body-Keeps api heap faults memory p f raw (h f refl))

  enable_found-FreesOnce :
      (n : ℕ) (o : Option (String → Exec (World U) Bool))
      → ((f : String → Exec (World U) Bool) → o ≡ some f → (tag : String) → Keeps p (f tag))
      → FreesOnce p (enable_found api heap faults memory o (some p) n)
  unfolding enable_found
  enable_found-FreesOnce n none h =
      FreesOnce-bind p (free_args (some p)) _ (FreesOnce-free_args p) (λ _. Keeps-pure p false)
  enable_found-FreesOnce n (some f) h = consume-FreesOnce false n f (h f refl)

  member-LeavesAlone :
      {F : Type 0} (get : ObservabilityClientCallbacks api.Double U → Option F) (P : F → Type 0)
      → ((c : ℕ) (f : F) → get (heap c) ≡ some f → P f)
      → (cbs : Option ℕ) (f : F) → member heap get cbs ≡ some f
      → P f
  member-LeavesAlone get P h none f e = cc
  member-LeavesAlone get P h (some c) f e = h c f e

  -- For any arguments at an address, and callbacks that do not free it themselves, each of
  -- dispatch_metric, dispatch_error and dispatch_should_enable frees it exactly once, whatever is
  -- in the slot, whatever the arguments hold and whether the callback returns or throws, if
  -- neither the lock nor the allocation of the copy fails.
  pub observer_frees_args :
      (slot n : ℕ) (kind : MetricKind)
      → FreesOnce p (dispatch_metric api heap faults memory slot (some p) n kind)
        × FreesOnce p (dispatch_error api heap faults memory slot (some p) n)
        × FreesOnce p (dispatch_should_enable api heap faults memory slot (some p) n)
  unfolding dispatch_metric dispatch_error dispatch_should_enable
  observer_frees_args slot n kind = (
    FreesOnce-after p _ _ (load_callbacks_returns faults slot lock) (λ cbs.
        metric_found-FreesOnce n (member heap (metric_fn kind) cbs) (
          member-LeavesAlone (metric_fn kind)
            (λ f.
              (name : String) (amount : api.Double) (tags : Dict String)
              → Keeps p (f name amount tags))
            (λ c. (alone c).metric kind) cbs)),
    FreesOnce-after p _ _ (load_callbacks_returns faults slot lock) (λ cbs.
        error_found-FreesOnce n (member heap (λ c. c.error) cbs) (
          member-LeavesAlone (λ c. c.error) (λ f. (tag error : String) → Keeps p (f tag error))
            (λ c. (alone c).error) cbs)),
    FreesOnce-after p _ _ (load_callbacks_returns faults slot lock) (λ cbs.
        enable_found-FreesOnce n (member heap (λ c. c.should_enable) cbs) (
          member-LeavesAlone (λ c. c.should_enable) (λ f. (tag : String) → Keeps p (f tag))
            (λ c. (alone c).should_enable) cbs)),
  )
