-- ===== src/Client/Sessions/Strings.antt =====
-- The strings of the native library over whole sessions.
use statsig_cpp_core.Prelude.{
  ℕ, ◌+◌, ◌≤◌, String, ◌≡◌, refl, sym, some-injective, subst, ap, ◌∙◌, Option, none, some, List, [],
  ◌∷◌, arith,
}
use statsig_cpp_core.Prelude.Effects.{Exec, ◌>>=◌, pure, modify, bind_pure-state}
use statsig_cpp_core.Json.{JsonApi}
use statsig_cpp_core.Client.Native.{Native}
use statsig_cpp_core.Client.Methods.{Method, Answer}
use statsig_cpp_core.Client.Sessions.{perform, session}
use statsig_cpp_core.Client.Calls.{
  free_result, initialize, initialize_with_details, initialize_blocking, shutdown,
  shutdown_blocking, flush_events, flush_events_blocking, log_event,
  override_experiment_by_group_name,
}
use statsig_cpp_core.Client.Getters.Lists.{Entity}
use statsig_cpp_core.Client.Getters.Balanced.{points, StringLaws, Balanced}
use statsig_cpp_core.Client.Getters.Balanced.Each.{
  check_gate-Balanced, get_feature_gate-Balanced, get_dynamic_config-Balanced,
  get_experiment-Balanced, get_layer-Balanced, by_group_name-Balanced, by_group_id-Balanced,
  get_experiment_groups-Balanced, details-Balanced, entity_list-Balanced,
}

module _ (n : Native) (out : ℕ → n.State → ℕ) where
  open n use {State}

  -- A function hands nothing out and takes nothing back.
  abbrev pub Keeps : (State → State) → Type 0
  Keeps f = (p : ℕ) (s : State) → out p (f s) ≡ out p s

  -- A function takes back the string that it is given.
  abbrev pub Takes : (Option ℕ → State → State) → Type 0
  Takes g =
      (r : Option ℕ) (p : ℕ) (s : State)
      → ((q : ℕ) → r ≡ some q → 1 ≤ out q s)
      → out p (g r s) + points p r ≡ out p s

  -- The library's side: a call that returns nothing hands out nothing but what it gives to the
  -- function that is passed to it, and calls nothing else.
  pub record CallLaws : Type 0 where
    pub initialize :
        (ref : ℕ) (f : Option (State → State))
        → ((g : State → State) → f ≡ some g → Keeps g)
        → Keeps (n.statsig_initialize ref f)
    pub initialize_with_details :
        (ref : ℕ) (f : Option (Option ℕ → State → State))
        → ((g : Option ℕ → State → State) → f ≡ some g → Takes g)
        → Keeps (n.statsig_initialize_with_details ref f)
    pub shutdown :
        (ref : ℕ) (f : Option (State → State))
        → ((g : State → State) → f ≡ some g → Keeps g)
        → Keeps (n.statsig_shutdown ref f)
    pub flush_events :
        (ref : ℕ) (f : Option (State → State))
        → ((g : State → State) → f ≡ some g → Keeps g)
        → Keeps (n.statsig_flush_events ref f)
    pub initialize_blocking : (ref : ℕ) → Keeps (n.statsig_initialize_blocking ref)
    pub shutdown_blocking : (ref : ℕ) → Keeps (n.statsig_shutdown_blocking ref)
    pub flush_events_blocking : (ref : ℕ) → Keeps (n.statsig_flush_events_blocking ref)
    pub log_event : (ref user : ℕ) (a : String) → Keeps (n.statsig_log_event ref user a)
    pub override :
        (ref : ℕ) (a b : String) (c : Option String)
        → Keeps (n.statsig_override_experiment_by_group_name ref a b c)

module _ (n : Native) (out : ℕ → n.State → ℕ) (laws : StringLaws n out) (calls : CallLaws n out)
    (api : JsonApi) (ref : ℕ) where
  open n use {State}
  open api use {Json}

  abbrev IsBalanced : {A : Type 0} → Exec State A → Type 0
  IsBalanced m = Balanced n out laws m

  abbrev nothing : Answer Json
  nothing = Answer.nothing

  -- The function that `initialize`, `shutdown` and `flushEvents` pass.
  nop-Keeps :
      (g : State → State)
      → ◌≡◌ {A = Option (State → State)} (some (λ s. s)) (some g)
      → Keeps n out g
  nop-Keeps g e p s = ap (λ f. out p (f s)) (some-injective g (λ s. s) (sym e))

  none-Keeps : (g : State → State) → ◌≡◌ {A = Option (State → State)} none (some g) → Keeps n out g
  none-Keeps g e p s = cc

  done-Balanced : (f : State → State) → Keeps n out f → IsBalanced (modify f >>= λ _. pure nothing)
  done-Balanced f h = record { at = h }

  mapped-Balanced :
      {A : Type 0} (m : Exec State A) (g : A → Answer Json)
      → IsBalanced m
      → IsBalanced (m >>= λ a. pure (g a))
  mapped-Balanced m g h = record { at = λ p s. ap (out p) (bind_pure-state m g s) ∙ h.at p s }

  initialize-Keeps : (f : Option (State → State)) → Keeps n out (initialize n ref f)
  unfolding initialize
  initialize-Keeps none = calls.initialize ref none none-Keeps
  initialize-Keeps (some f) = calls.initialize ref (some (λ s. s)) nop-Keeps

  shutdown-Keeps : (f : Option (State → State)) → Keeps n out (shutdown n ref f)
  unfolding shutdown
  shutdown-Keeps none = calls.shutdown ref none none-Keeps
  shutdown-Keeps (some f) = calls.shutdown ref (some (λ s. s)) nop-Keeps

  flush_events-Keeps : (f : Option (State → State)) → Keeps n out (flush_events n ref f)
  unfolding flush_events
  flush_events-Keeps none = calls.flush_events ref none none-Keeps
  flush_events-Keeps (some f) = calls.flush_events ref (some (λ s. s)) nop-Keeps

  free_result-Takes : Takes n out (free_result n)
  unfolding free_result
  free_result-Takes none p s h = omega arith
  free_result-Takes (some q) p s h = laws.free_string p q s (h q refl)

  details-Keeps :
      (f : Option (String → State → State)) → Keeps n out (initialize_with_details n ref f)
  unfolding initialize_with_details
  details-Keeps none = calls.initialize_with_details ref none (λ g e r p s h. cc)
  details-Keeps (some f) =
      calls.initialize_with_details ref (some (free_result n))
        (λ g e. subst (Takes n out) (some-injective (free_result n) g e) free_result-Takes)

  perform-Balanced : (m : Method State Json) → IsBalanced (perform n api ref m)
  unfolding perform initialize_blocking shutdown_blocking flush_events_blocking log_event
      override_experiment_by_group_name
  perform-Balanced (Method.initialize f) = done-Balanced _ (initialize-Keeps f)
  perform-Balanced (Method.initialize_with_details f) = done-Balanced _ (details-Keeps f)
  perform-Balanced Method.initialize_with_details_blocking =
      mapped-Balanced _ _ (details-Balanced n out laws api ref)
  perform-Balanced Method.initialize_blocking = done-Balanced _ (calls.initialize_blocking ref)
  perform-Balanced (Method.shutdown f) = done-Balanced _ (shutdown-Keeps f)
  perform-Balanced Method.shutdown_blocking = done-Balanced _ (calls.shutdown_blocking ref)
  perform-Balanced (Method.flush_events f) = done-Balanced _ (flush_events-Keeps f)
  perform-Balanced Method.flush_events_blocking = done-Balanced _ (calls.flush_events_blocking ref)
  perform-Balanced (Method.log_event user name value metadata) =
      done-Balanced _ (calls.log_event ref user _)
  perform-Balanced (Method.check_gate user name options) =
      mapped-Balanced _ _ (check_gate-Balanced n out laws api ref user name options)
  perform-Balanced (Method.get_feature_gate user name options unset) =
      mapped-Balanced _ _ (get_feature_gate-Balanced n out laws api ref user name unset options)
  perform-Balanced (Method.get_experiment user name options) =
      mapped-Balanced _ _ (get_experiment-Balanced n out laws api ref user name options)
  perform-Balanced (Method.get_experiment_by_group_name name group) =
      mapped-Balanced _ _ (by_group_name-Balanced n out laws api ref name group)
  perform-Balanced (Method.get_experiment_by_group_id_advanced name id) =
      mapped-Balanced _ _ (by_group_id-Balanced n out laws api ref name id)
  perform-Balanced (Method.override_experiment_by_group_name name group id) =
      done-Balanced _ (calls.override ref name group id)
  perform-Balanced (Method.get_experiment_groups name) =
      mapped-Balanced _ _ (get_experiment_groups-Balanced n out laws api ref name)
  perform-Balanced (Method.get_dynamic_config user name options) =
      mapped-Balanced _ _ (get_dynamic_config-Balanced n out laws api ref user name options)
  perform-Balanced (Method.get_layer user name options unset flag) =
      mapped-Balanced _ _ (get_layer-Balanced n out laws api ref user name unset flag options)
  perform-Balanced Method.get_feature_gate_list =
      mapped-Balanced _ _ (entity_list-Balanced n out laws api ref Entity.feature_gate)
  perform-Balanced Method.get_dynamic_config_list =
      mapped-Balanced _ _ (entity_list-Balanced n out laws api ref Entity.dynamic_config)
  perform-Balanced Method.get_experiment_list =
      mapped-Balanced _ _ (entity_list-Balanced n out laws api ref Entity.experiment)
  perform-Balanced Method.get_autotune_list =
      mapped-Balanced _ _ (entity_list-Balanced n out laws api ref Entity.autotune)
  perform-Balanced Method.get_layer_list =
      mapped-Balanced _ _ (entity_list-Balanced n out laws api ref Entity.layer)

  -- If each call of the native library hands out no string but the one that it returns or gives to
  -- the function that is passed to it, and free_string takes one back, then after any session of
  -- calls of the methods of a client, with any arguments and whichever of them throw, no string is
  -- handed out that was not before.
  pub session_gives_back :
      (methods : List (Method State Json)) (p : ℕ) (s : State)
      → out p (session n api ref methods s).1 ≡ out p s
  unfolding session
  session_gives_back [] p s = refl
  session_gives_back (m ∷ methods) p s =
      session_gives_back methods p (perform n api ref m s).1 ∙ (perform-Balanced m).at p s
