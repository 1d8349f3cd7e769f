-- ===== src/Client/Getters/Balanced.antt =====
-- Each function that gets a string of the native library gives it back.
pub mod Each
use statsig_cpp_core.Prelude.{
  ℕ, ◌+◌, ◌≤◌, String, ◌≡◌, refl, Bool, Option, none, some, [], Result, ok, throw, one, arith, ap,
}
use statsig_cpp_core.Prelude.Effects.{Exec, ◌>>=◌, lift}
use statsig_cpp_core.Json.{JsonApi}
use statsig_cpp_core.Types.{FeatureGate, parse_gate, parse_config}
use statsig_cpp_core.Types.Experiment.{default_experiment, parse_experiment}
use statsig_cpp_core.Layer.{Layer, parse_layer}
use statsig_cpp_core.Options.{
  CheckGateOptions, GetDynamicConfigOptions, GetExperimentOptions, GetLayerOptions,
  gate_options_to_json, config_options_to_json, experiment_options_to_json, layer_options_to_json,
}
use statsig_cpp_core.Client.Native.{Native}
use statsig_cpp_core.Client.Decode.{no_groups, decode_groups, decode_names}
use statsig_cpp_core.Client.Getters.{
  default_config, call, answered, answered_sized, serialize, check_gate, get_feature_gate,
  get_experiment, get_dynamic_config, get_layer, get_experiment_by_group_name,
  get_experiment_by_group_id_advanced, get_experiment_groups, initialize_with_details_blocking,
}
use statsig_cpp_core.Client.Getters.Lists.{
  list_of, Entity, native_list, entity_list, get_feature_gate_list, get_dynamic_config_list,
  get_experiment_list, get_autotune_list, get_layer_list,
}

-- Whether a pointer is to the string at `p`.
abbrev pub points : ℕ → Option ℕ → ℕ
points p none = 0
points p (some q) = one p q

module _ (n : Native) where
  -- A call hands out the string that it returns, and a call that returns none hands out none.
  abbrev pub HandsOut : (ℕ → n.State → ℕ) → (n.State → Option ℕ × n.State) → Type 0
  HandsOut out f = (p : ℕ) (s : n.State) → out p (f s).1 ≡ out p s + points p (f s).0

  abbrev pub HandsOutSized : (ℕ → n.State → ℕ) → (n.State → (Option ℕ × ℕ) × n.State) → Type 0
  HandsOutSized out f = (p : ℕ) (s : n.State) → out p (f s).1 ≡ out p s + points p (f s).0.0

  -- The library's side: `out p s` is how often the string at `p` is handed out and not yet freed.
  pub record StringLaws (out : ℕ → n.State → ℕ) : Type 0 where
    pub free_string :
        (p q : ℕ) (s : n.State) → 1 ≤ out q s → out p (n.free_string q s) + one p q ≡ out p s
    pub check_gate :
        (ref user : ℕ) (a b : String) (p : ℕ) (s : n.State)
        → out p (n.statsig_check_gate ref user a b s).1 ≡ out p s
    pub details : (ref : ℕ) → HandsOut out (n.statsig_initialize_with_details_blocking ref)
    pub gate :
        (ref user : ℕ) (a b : String) → HandsOut out (n.statsig_get_feature_gate ref user a b)
    pub experiment :
        (ref user : ℕ) (a b : String) → HandsOut out (n.statsig_get_experiment ref user a b)
    pub config :
        (ref user : ℕ) (a b : String) → HandsOut out (n.statsig_get_dynamic_config ref user a b)
    pub layer : (ref user : ℕ) (a b : String) → HandsOut out (n.statsig_get_layer ref user a b)
    pub by_name :
        (ref : ℕ) (a b : String)
        → HandsOutSized out (n.statsig_get_raw_experiment_by_group_name ref a b)
    pub by_id :
        (ref : ℕ) (a b : String)
        → HandsOutSized out (n.statsig_get_raw_experiment_by_group_id_advanced ref a b)
    pub groups : (ref : ℕ) (a : String) → HandsOutSized out (n.statsig_get_experiment_groups ref a)
    pub lists : (ref : ℕ) (kind : Entity) → HandsOutSized out (native_list n ref kind)

module _ (n : Native) (out : ℕ → n.State → ℕ) (laws : StringLaws n out) where
  -- All that is handed out is given back, whether the function returns or throws.
  pub record Balanced {A : Type 0} (m : Exec n.State A) : Type 0 where
    pub at : (p : ℕ) (s : n.State) → out p (m s).1 ≡ out p s

  one_self : (q : ℕ) → one q q ≡ 1
  one_self q = ground arith

  -- A string that has just been handed out is freed.
  give_back :
      (result : Option ℕ) (q : ℕ) (before s : n.State)
      → result ≡ some q
      → ((p : ℕ) → out p s ≡ out p before + points p result)
      → (p : ℕ) → out p (n.free_string q s) ≡ out p before
  give_back result q before s e h p = omega (
    arith,
    laws.free_string p q s (omega (arith, h q, one_self q, ap (points q) e)),
    h p,
    ap (points p) e,
  )

  answered-Balanced :
      {A : Type 0} (decode : String → Result A) (default : A) (result : Option ℕ)
      (before s : n.State)
      → ((p : ℕ) → out p s ≡ out p before + points p result)
      → (p : ℕ) → out p (answered n decode default result s).1 ≡ out p before
  unfolding answered
  answered-Balanced decode default none before s h p = omega (arith, h p)
  answered-Balanced decode default (some q) before s h p = give_back (some q) q before s refl h p

  answered_sized-Balanced :
      {A : Type 0} (decode : String → Result A) (default : A) (result : Option ℕ × ℕ)
      (before s : n.State)
      → ((p : ℕ) → out p s ≡ out p before + points p result.0)
      → (p : ℕ) → out p (answered_sized n decode default result s).1 ≡ out p before
  unfolding answered_sized
  answered_sized-Balanced decode default (none, len) before s h p = omega (arith, h p)
  answered_sized-Balanced decode default (some q, len) before s h p =
      give_back (some q) q before s refl h p

  pub ask-Balanced :
      {A : Type 0} (ask : n.State → Option ℕ × n.State) (decode : String → Result A) (default : A)
      → HandsOut n out ask
      → Balanced (call ask >>= (λ result. answered n decode default result))
  ask-Balanced ask decode default h = record {
    at = λ p s. answered-Balanced decode default (ask s).0 s (ask s).1 (λ q. h q s) p;
  }

  -- The getters that ask for more than they use of the answer.
  pub ask_first-Balanced :
      {A : Type 0} (ask : n.State → (Option ℕ × ℕ) × n.State) (decode : String → Result A)
      (default : A)
      → HandsOutSized n out ask
      → Balanced (call ask >>= (λ result. answered n decode default result.0))
  ask_first-Balanced ask decode default h = record {
    at = λ p s. answered-Balanced decode default (ask s).0.0 s (ask s).1 (λ q. h q s) p;
  }

  pub ask_sized-Balanced :
      {A : Type 0} (ask : n.State → (Option ℕ × ℕ) × n.State) (decode : String → Result A)
      (default : A)
      → HandsOutSized n out ask
      → Balanced (call ask >>= (λ result. answered_sized n decode default result))
  ask_sized-Balanced ask decode default h = record {
    at = λ p s. answered_sized-Balanced decode default (ask s).0 s (ask s).1 (λ q. h q s) p;
  }

  pub serialized-Balanced :
      {A : Type 0} (r : Result String) (m : String → Exec n.State A)
      → ((text : String) → Balanced (m text))
      → Balanced (lift r >>= m)
  serialized-Balanced (ok text) m h = record { at = λ p s. (h text).at p s }
  serialized-Balanced (throw x) m h = record { at = λ p s. refl }
