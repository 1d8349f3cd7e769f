-- ===== src/Tests/Sessions.antt =====
-- A session of several calls, with the library that hands out one string.
use statsig_cpp_core.Prelude.{ℕ, false, ◌≡◌, refl, none, some, List, [], ◌∷◌}
use statsig_cpp_core.Json.Tree.{Tree}
use statsig_cpp_core.Client.Methods.{Method}
use statsig_cpp_core.Client.Sessions.{session}
use statsig_cpp_core.Client.Sessions.Strings.{CallLaws, session_gives_back}
use statsig_cpp_core.Tests.Native.{library, out, library_laws, api, unset_layer}

library_calls : CallLaws library out
library_calls = record {
  initialize = λ ref f h p s. refl;
  initialize_with_details = λ ref f h p s. refl;
  shutdown = λ ref f h p s. refl;
  flush_events = λ ref f h p s. refl;
  initialize_blocking = λ ref p s. refl;
  shutdown_blocking = λ ref p s. refl;
  flush_events_blocking = λ ref p s. refl;
  log_event = λ ref user a p s. refl;
  override = λ ref a b c p s. refl;
}

abbrev some_calls : List (Method ℕ Tree)
some_calls =
    Method.initialize_with_details (some (λ t s. s))
    ∷ Method.check_gate 9 "a_gate" none
    ∷ Method.get_layer 9 "a_layer" none unset_layer false
    ∷ Method.get_experiment_groups "exp"
    ∷ Method.get_layer_list
    ∷ Method.shutdown_blocking
    ∷ []

session_gives_back_example : out 40 (session library api 3 some_calls 0).1 ≡ out 40 0
session_gives_back_example =
    session_gives_back library out library_laws library_calls api 3 some_calls 40 0
