-- ===== src/Lib.antt =====
-- statsig-cpp-core: the C++ wrapper of Statsig's native SDK, modelled from src/ of the
-- repository.
--
-- The wrapper holds handles (refs) of objects that the native library owns, hands it JSON texts,
-- and decodes the JSON texts that it returns. Users can give it two sets of callbacks, a
-- persistent storage and an observability client. The native library calls them through
-- context-free functions, so that each wrapper object claims one of 32 slots of a pool, and the
-- functions of a slot look the callbacks up there.
--
-- Prelude: numbers, lists, dictionaries, results (exceptions as values) and state with
-- exceptions. Json: nlohmann::json, which is not part of the repository, as a record of
-- operations with a record of its documented laws; Json.Tree is an instance of both, for the
-- tests.
--
-- Sticky: src/persistent_storage.h, the sticky values and their JSON form (`to_json` and
-- `from_json` are `sticky_to_json` and `sticky_from_json`, and so on). Slots: the pool of
-- src/persistent_storage.cpp (`claim_slot`, `release_slot`, `load_callbacks`). Host: the state
-- that the wrappers act on, with the calls of the native library as a list of events, and
-- `free_args` and `consume_args`. Storage: the constructor and the destructor of
-- `PersistentStorage`, with the entries of the three tables that it hands over (Storage.Tables);
-- Storage.Live: any sequence of them; Storage.Sharing: the same with the shared pointers to the
-- callbacks and their counts, interleaved with dispatches that run; Storage.Registry: the
-- constructor and the destructor in the parts between which other threads can act, with what the
-- native side has registered (`claim`, `enroll` and `withdraw` are the constructor, `unregister`
-- and `clear` the destructor), and with its calls that are under way (Storage.Registry.Pending);
-- Storage.Dispatch: `dispatch_load`, `dispatch_save`, `dispatch_delete`, the functions of a slot
-- and their tables (Storage.Dispatch.Trampolines), and what sequences of requests see of a
-- storage that keeps a map (Storage.Dispatch.Requests). Observer: the same of
-- src/observability_client.cpp, with its own pool and helpers (Observer.Pool). Types:
-- src/types.h. Options: src/options.h and src/options.cpp. User: src/user.h and src/user.cpp.
-- Handles: the handles `User` and `StatsigOptions`. Client: src/statsig.cpp, with the ref of the
-- client (Client.Handles), the functions that pass a call on (Client.Calls), the text of an event
-- (Client.Events), the getters and the entity lists (Client.Decode, Client.Getters);
-- Client.Native is the interface of the native library's functions that it calls, and
-- Client.Sessions runs sequences of calls of the methods of src/statsig.h (Client.Methods).
-- Layer: src/layer.h.
--
-- The native library is a parameter: what `persistent_storage_create` and its like return, the
-- memory behind the pointers that it passes, and the faults of the lock and of the allocation. A
-- callback is any change of the state that returns or throws. A number of C++ is a natural number
-- or an integer, with the range as a hypothesis where a theorem needs it. No loop needs fuel:
-- those of the program run over a list.
--
-- Not modelled: threads but for the interleaving of dispatches with constructions and
-- destructions, and of the parts of constructions and destructions with each other (with
-- dispatches and counts, in Storage.Sharing, a whole construction is one step, and the body of a
-- destructor is one, with the end of the members as another; in Storage.Registry an access to the
-- pool under the mutex is one step, and so is a call of the native library; what a callback does
-- with its storage is part of no step there), the texts on the error stream but for their
-- occasion, the lifetime of the texts that are passed to the native library and the cut of such a
-- text at a NUL in it, the indeterminate ref of a default-constructed `StatsigOptions`, and
-- failing allocations but for the copy of the arguments in the dispatches. A map has no order of
-- iteration: an association list stands for any order.
pub mod Prelude
pub mod Json
pub mod Sticky
pub mod Slots
pub mod Host
pub mod Storage
pub mod Types
pub mod Options
pub mod User
pub mod Handles
pub mod Observer
pub mod Layer
pub mod Client
pub mod Tests
