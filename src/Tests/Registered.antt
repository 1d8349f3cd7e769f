-- ===== src/Tests/Registered.antt =====
-- The functions that a storage and a client register, after one construction each.
use statsig_cpp_core.Prelude.{ℕ, refl, [], ◌∷◌, map}
use statsig_cpp_core.Storage.Live
use statsig_cpp_core.Storage.Live.{IsConsistent}
use statsig_cpp_core.Observer.{ObservabilityClient, construct}
use statsig_cpp_core.Observer.Tables.{Functions, functions, index}
use statsig_cpp_core.Storage.Tables
use statsig_cpp_core.Observer.SameAsStorage.{as_storage}
use statsig_cpp_core.Observer.Live.{
  Process, Reach, here, next, constructs, as_process, clients_refine_storages,
}
use statsig_cpp_core.Tests.Pool.{create, empty_world}
use statsig_cpp_core.Tests.Calls.{U}

abbrev client_create : Functions → ℕ
client_create fs = create (Tables.functions (index fs.init))

abbrev no_client : Process U
no_client = record { world = empty_world; live = [] }

abbrev first_client : ObservabilityClient
first_client = (construct client_create 7 empty_world).0

abbrev one_client : Process U
one_client = record { world = (construct client_create 7 empty_world).1; live = first_client ∷ [] }

client_reached : Reach no_client one_client
client_reached = next here (constructs client_create 7)

clients_refine_storages_example :
    Live.Reach (as_process no_client) (as_process one_client)
    × IsConsistent one_client.world.slots (map as_storage one_client.live)
clients_refine_storages_example =
    clients_refine_storages no_client one_client (refl, refl) client_reached
