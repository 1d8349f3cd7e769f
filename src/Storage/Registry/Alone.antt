-- ===== src/Storage/Registry/Alone.antt =====
-- A constructor and a destructor that run without interruption: their parts, one after the other,
-- are the functions `construct` and `destroy` of the storage.
use statsig_cpp_core.Prelude.{
  ℕ, ◌≡◌, ◌≢◌, refl, ap, ◌∙◌, inl, inr, Option, none, some, ◌==◌, if◌then◌else◌, Bool-cases,
}
use statsig_cpp_core.Storage.Tables.{Functions, functions}
use statsig_cpp_core.Json.{ℤ, pos, negsuc}
use statsig_cpp_core.Slots.{claim_slot, release_slot}
use statsig_cpp_core.Host.{World, created, released, not_registered, emit}
use statsig_cpp_core.Storage.{PersistentStorage, register, construct, destroy}
use statsig_cpp_core.Storage.Registry.Consistent.{update_self, update_other}
use statsig_cpp_core.Storage.Registry.{
  Phase, Object, Registry, new_storage, update, claim, enroll, withdraw, unregister, clear, Reach,
  here, next, claims, enrolls, withdraws, unregisters, clears,
}

module _ {U : Type 0} (i : ℕ) (r : Registry U) where
  -- Steps of thread `i` lead to a state and a storage of it.
  pub record Arrives (w : World U) (o : Option Object) : Type 0 where
    pub at : Registry U
    pub way : Reach r at
    pub world : at.world ≡ w
    pub object : at.objects i ≡ o
    pub others : (j : ℕ) → j ≢ i → at.objects j ≡ r.objects j

  module _ (create : Functions → ℕ) (c : ℕ) where
    enroll-Arrives :
        (q : Registry U) (z : ℤ)
        → Reach r q
        → q.objects i ≡ some (record { storage = new_storage c z; phase = Phase.claimed })
        → ((j : ℕ) → j ≢ i → q.objects j ≡ r.objects j)
        → ((k : ℕ) → q.entries (create (functions k)) ≡ none)
        → Arrives
            (register create c z q.world).1
            (some (record { storage = (register create c z q.world).0; phase = Phase.alive }))
    unfolding register enroll withdraw
    enroll-Arrives q (negsuc n) way e others fresh = record {
      at = enroll i (new_storage c (negsuc n)) (create (functions 0)) (negsuc n) q;
      way = next way (enrolls i (create (functions 0)) (new_storage c (negsuc n)) e (fresh 0));
      world = refl;
      object = update_self i _ q.objects;
      others = λ j n. update_other i j _ q.objects n ∙ others j n;
    }
    enroll-Arrives q (pos k) way e others fresh =
        let s = new_storage c (pos k) in
        let way' : Reach r (enroll i s (create (functions k)) (pos k) q) =
          next way (enrolls i (create (functions k)) s e (fresh k)) in
        elim (Bool-cases (create (functions k) == 0)) [
          | inl z ↦
              let refused : Registry U = record q {
                world = emit not_registered (emit (created k) q.world);
                objects = update i (some (record { storage = s; phase = Phase.refused })) q.objects;
              } in
              let arrived : Reach r refused = (rw z at way') in
              rw z (record {
                at = withdraw i s refused;
                way = next arrived (withdraws i s (update_self i _ q.objects));
                world = refl;
                object = update_self i _ refused.objects;
                others = λ j n.
                    update_other i j _ refused.objects n
                    ∙ update_other i j _ q.objects n
                    ∙ others j n;
              })
          | inr n ↦
              let enrolled : Registry U = record q {
                world = emit (created k) q.world;
                objects =
                    update i
                      (some (record {
                        storage = record s { ref = create (functions k) };
                        phase = Phase.alive;
                      }))
                      q.objects;
                entries = update (create (functions k)) (some (functions k)) q.entries;
              } in
              let arrived : Reach r enrolled = (rw n at way') in
              rw n (record {
                at = enrolled;
                way = arrived;
                world = refl;
                object = update_self i _ q.objects;
                others = λ j n. update_other i j _ q.objects n ∙ others j n;
              })
        ]

    pub construct_by_steps :
        r.objects i ≡ none
        → ((k : ℕ) → r.entries (create (functions k)) ≡ none)
        → Arrives
            (construct create c r.world).1
            (some (record { storage = (construct create c r.world).0; phase = Phase.alive }))
    unfolding construct claim
    construct_by_steps new fresh =
        enroll-Arrives (claim i c r) (claim_slot r.world.slots (some c)).0
          (next here (claims i c new)) (update_self i _ r.objects)
          (λ j n. update_other i j _ r.objects n) fresh

  unregister-eq :
      (s : PersistentStorage)
      → ((unregister i s r).world ≡ (if s.ref == 0 then r.world else emit (released s.ref) r.world))
        × ((unregister i s r).objects
            ≡ update i
                (some (record { storage = record s { ref = 0 }; phase = Phase.gone }))
                r.objects)
  unfolding unregister
  unregister-eq s = elim (Bool-cases (s.ref == 0)) [
    | inl z ↦ rw z (refl, refl)
    | inr n ↦ rw n (refl, refl)
  ]

  pub destroy_by_steps :
      (s : PersistentStorage)
      → r.objects i ≡ some (record { storage = s; phase = Phase.alive })
      → Arrives (destroy s r.world) none
  unfolding destroy clear
  destroy_by_steps s e =
      let s' : PersistentStorage = record s { ref = 0 } in
      let left : Registry U = unregister i s r in
      let (world, objects) = unregister-eq s in
      let object = ap (λ f. f i) objects ∙ update_self i _ r.objects in
      record {
        at = clear i s' left;
        way = next (next here (unregisters i s e)) (clears i s' object);
        world = ap (λ (w : World U). record w { slots = release_slot w.slots s.slot }) world;
        object = update_self i _ left.objects;
        others = λ j n.
            update_other i j _ left.objects n
            ∙ ap (λ f. f j) objects
            ∙ update_other i j _ r.objects n;
      }
