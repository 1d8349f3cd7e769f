-- ===== src/Layer/Exposures.antt =====
-- `Layer::get`, and the exposures of a row of reads.
pub mod Served
use statsig_cpp_core.Prelude.{
  ℕ, String, Option, none, some, List, [], ◌∷◌, lookup, Result, ok, throw,
}
use statsig_cpp_core.Prelude.Effects.{Exec, ◌>>=◌, ◌>>◌, pure, lift, modify, try_catch}
use statsig_cpp_core.Layer.{Layer}

-- A call of `statsig_log_layer_param_exposure`: the ref, the layer's text, the parameter.
pub record Exposure : Type 0 where
  pub statsig_ref : ℕ
  pub json_str : String
  pub param_name : String

module _ {J A : Type 0} (convert : J → Result A) where
  read_value : Layer J → String → J → Exec (List Exposure) A
  read_value l key v = do
    result ← lift (convert v)
    modify (λ log.
        record { statsig_ref = l.statsig_ref; json_str = l.json_str; param_name = key } ∷ log)
    pure result

  get_found : Layer J → String → A → Option J → Exec (List Exposure) A
  unfolding read_value
  get_found l key fallback none = pure fallback
  get_found l key fallback (some v) = try_catch (read_value l key v) (λ e. pure fallback)

  -- The state is the log of exposures, newest first. `convert` is `get<T>` of the JSON library.
  pub get : Layer J → String → A → Exec (List Exposure) A
  unfolding get_found
  get l key fallback = get_found l key fallback (lookup key l.value)

  -- A row of reads.
  pub get_all : Layer J → List (String × A) → Exec (List Exposure) (List A)
  get_all l [] = pure []
  get_all l ((key, fallback) ∷ rest) = do
    a ← get l key fallback
    others ← get_all l rest
    pure (a ∷ others)
