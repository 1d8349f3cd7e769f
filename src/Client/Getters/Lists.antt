-- ===== src/Client/Getters/Lists.antt =====
-- The entity lists of src/statsig.cpp.
pub mod Names
use statsig_cpp_core.Prelude.{ℕ, String, Option, List, []}
use statsig_cpp_core.Prelude.Effects.{Exec, ◌>>=◌}
use statsig_cpp_core.Json.{JsonApi}
use statsig_cpp_core.Client.Native.{Native}
use statsig_cpp_core.Client.Decode.{decode_names}
use statsig_cpp_core.Client.Getters.{call, answered_sized}

module _ (n : Native) (api : JsonApi) (ref : ℕ) where
  -- What each of the five does with its function of the library.
  unfoldable pub list_of : (n.State → (Option ℕ × ℕ) × n.State) → Exec n.State (List String)
  unfolding answered_sized
  list_of ask = do result ← call ask; answered_sized n (decode_names api) [] result

  unfoldable pub get_feature_gate_list : Exec n.State (List String)
  unfolding list_of
  get_feature_gate_list = list_of (n.statsig_get_feature_gate_list ref)

  unfoldable pub get_dynamic_config_list : Exec n.State (List String)
  unfolding list_of
  get_dynamic_config_list = list_of (n.statsig_get_dynamic_config_list ref)

  unfoldable pub get_experiment_list : Exec n.State (List String)
  unfolding list_of
  get_experiment_list = list_of (n.statsig_get_experiment_list ref)

  unfoldable pub get_autotune_list : Exec n.State (List String)
  unfolding list_of
  get_autotune_list = list_of (n.statsig_get_autotune_list ref)

  unfoldable pub get_layer_list : Exec n.State (List String)
  unfolding list_of
  get_layer_list = list_of (n.statsig_get_layer_list ref)

-- Which of the five lists.
pub data Entity : Type 0 where
  feature_gate dynamic_config experiment autotune layer : Entity

-- The function of the library and the function of the client for a kind of entity.
module _ (n : Native) (ref : ℕ) where
  abbrev pub native_list : Entity → n.State → (Option ℕ × ℕ) × n.State
  native_list Entity.feature_gate = n.statsig_get_feature_gate_list ref
  native_list Entity.dynamic_config = n.statsig_get_dynamic_config_list ref
  native_list Entity.experiment = n.statsig_get_experiment_list ref
  native_list Entity.autotune = n.statsig_get_autotune_list ref
  native_list Entity.layer = n.statsig_get_layer_list ref

module _ (n : Native) (api : JsonApi) (ref : ℕ) where
  abbrev pub entity_list : Entity → Exec n.State (List String)
  entity_list Entity.feature_gate = get_feature_gate_list n api ref
  entity_list Entity.dynamic_config = get_dynamic_config_list n api ref
  entity_list Entity.experiment = get_experiment_list n api ref
  entity_list Entity.autotune = get_autotune_list n api ref
  entity_list Entity.layer = get_layer_list n api ref
