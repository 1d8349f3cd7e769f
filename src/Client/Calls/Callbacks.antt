-- ===== src/Client/Calls/Callbacks.antt =====
-- What becomes of the callbacks that a caller passes.
use statsig_cpp_core.Prelude.{ℕ, String, ◌≡◌, refl, some}
use statsig_cpp_core.Client.Native.{Native}
use statsig_cpp_core.Client.Calls.{initialize, initialize_with_details, shutdown, flush_events}

pub callbacks_ignored :
    (n : Native) (ref : ℕ) (f g : n.State → n.State) (h k : String → n.State → n.State)
    (s : n.State)
    → (initialize n ref (some f) s ≡ initialize n ref (some g) s)
      × (initialize_with_details n ref (some h) s ≡ initialize_with_details n ref (some k) s)
      × (shutdown n ref (some f) s ≡ shutdown n ref (some g) s)
      × (flush_events n ref (some f) s ≡ flush_events n ref (some g) s)
unfolding initialize initialize_with_details shutdown flush_events
callbacks_ignored n ref f g h k s = (refl, refl, refl, refl)
