-- ===== src/Storage/Registry/Pending/Late.antt =====
-- A call that is under way while its storage is destroyed: what the comment of
-- src/persistent_storage.h on PersistentStorage warns of.
use statsig_cpp_core.Prelude.{ℕ, ◌≡◌, some, [], ◌∷◌}
use statsig_cpp_core.Json.{pos}
use statsig_cpp_core.Slots.{load_callbacks}
use statsig_cpp_core.Storage.Registry
use statsig_cpp_core.Storage.Registry.{Phase, Registry}
use statsig_cpp_core.Storage.Registry.Pending.{Traffic, Always, Reach}

module _ {U : Type 0} (r : Registry U) (i j a b : ℕ) where
  -- A storage of thread `i` with the callbacks `a` is called, destroyed while the call is under way,
  -- and the call runs the callbacks `b` of another.
  pub record Misdelivers : Type 0 where
    pub ref : ℕ
    pub slot : ℕ
    pub called : Traffic U
    pub late : Traffic U
    pub way : Reach Always (record { registry = r; pending = [] }) called
    pub storage :
        called.registry.objects i
        ≡ some (record {
          storage = record { callbacks = a; ref = ref; slot = pos slot };
          phase = Phase.alive;
        })
    pub way_on : Reach Always called late
    pub pending : late.pending ≡ record { ref = ref; slot = slot } ∷ []
    pub found : load_callbacks late.registry.world.slots slot ≡ some b
