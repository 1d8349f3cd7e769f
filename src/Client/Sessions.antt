-- ===== src/Client/Sessions.antt =====
-- src/statsig.cpp: sessions of calls of the methods of a client. A call that throws leaves the client as it is, and its user can go on.
pub mod Strings
use statsig_cpp_core.Prelude.{ℕ, List, [], ◌∷◌, Result}
use statsig_cpp_core.Prelude.Effects.{Exec, ◌>>=◌, pure, modify}
use statsig_cpp_core.Json.{JsonApi}
use statsig_cpp_core.Client.Native.{Native}
use statsig_cpp_core.Client.Methods.{Method, Answer}
use statsig_cpp_core.Client.Calls.{
  initialize, initialize_with_details, initialize_blocking, shutdown, shutdown_blocking,
  flush_events, flush_events_blocking, log_event, override_experiment_by_group_name,
}
use statsig_cpp_core.Client.Getters.{
  check_gate, get_feature_gate, get_experiment, get_dynamic_config, get_layer,
  get_experiment_by_group_name, get_experiment_by_group_id_advanced, get_experiment_groups,
  initialize_with_details_blocking,
}
use statsig_cpp_core.Client.Getters.Lists.{
  get_feature_gate_list, get_dynamic_config_list, get_experiment_list, get_autotune_list,
  get_layer_list,
}

module _ (n : Native) (api : JsonApi) (ref : ℕ) where
  open n use {State}
  open api use {Json}

  -- The call of a method of the client with this ref.
  unfoldable pub perform : Method State Json → Exec State (Answer Json)
  perform (Method.initialize f) = modify (initialize n ref f) >>= λ _. pure Answer.nothing
  perform (Method.initialize_with_details f) =
      modify (initialize_with_details n ref f) >>= λ _. pure Answer.nothing
  perform Method.initialize_with_details_blocking =
      initialize_with_details_blocking n api ref >>= λ t. pure (Answer.text t)
  perform Method.initialize_blocking =
      modify (initialize_blocking n ref) >>= λ _. pure Answer.nothing
  perform (Method.shutdown f) = modify (shutdown n ref f) >>= λ _. pure Answer.nothing
  perform Method.shutdown_blocking = modify (shutdown_blocking n ref) >>= λ _. pure Answer.nothing
  perform (Method.flush_events f) = modify (flush_events n ref f) >>= λ _. pure Answer.nothing
  perform Method.flush_events_blocking =
      modify (flush_events_blocking n ref) >>= λ _. pure Answer.nothing
  perform (Method.log_event user name value metadata) =
      modify (log_event n ref user name value metadata) >>= λ _. pure Answer.nothing
  perform (Method.check_gate user name options) =
      check_gate n api ref user name options >>= λ b. pure (Answer.flag b)
  perform (Method.get_feature_gate user name options unset) =
      get_feature_gate n api ref user unset name options >>= λ g. pure (Answer.gate g)
  perform (Method.get_experiment user name options) =
      get_experiment n api ref user name options >>= λ e. pure (Answer.experiment e)
  perform (Method.get_experiment_by_group_name name group) =
      get_experiment_by_group_name n api ref name group >>= λ e. pure (Answer.experiment e)
  perform (Method.get_experiment_by_group_id_advanced name id) =
      get_experiment_by_group_id_advanced n api ref name id >>= λ e. pure (Answer.experiment e)
  perform (Method.override_experiment_by_group_name name group id) =
      modify (override_experiment_by_group_name n ref name group id) >>= λ _. pure Answer.nothing
  perform (Method.get_experiment_groups name) =
      get_experiment_groups n api ref name >>= λ g. pure (Answer.groups g)
  perform (Method.get_dynamic_config user name options) =
      get_dynamic_config n api ref user name options >>= λ c. pure (Answer.config c)
  perform (Method.get_layer user name options unset unset_flag) =
      get_layer n api ref user unset unset_flag name options >>= λ l. pure (Answer.layer l)
  perform Method.get_feature_gate_list =
      get_feature_gate_list n api ref >>= λ l. pure (Answer.names l)
  perform Method.get_dynamic_config_list =
      get_dynamic_config_list n api ref >>= λ l. pure (Answer.names l)
  perform Method.get_experiment_list = get_experiment_list n api ref >>= λ l. pure (Answer.names l)
  perform Method.get_autotune_list = get_autotune_list n api ref >>= λ l. pure (Answer.names l)
  perform Method.get_layer_list = get_layer_list n api ref >>= λ l. pure (Answer.names l)

  -- Calls one after the other, with what each returns or throws.
  pub session : List (Method State Json) → State → List (Result (Answer Json)) × State
  unfolding perform
  session [] s = ([], s)
  session (m ∷ methods) s =
      let (r, s') = perform m s in let (rest, s'') = session methods s' in (r ∷ rest, s'')
