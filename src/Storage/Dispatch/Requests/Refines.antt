-- ===== src/Storage/Dispatch/Requests/Refines.antt =====
-- A slot with callbacks that keep what is saved is a map for the native side.
use statsig_cpp_core.Prelude.{
  ℕ, String, ◌≡◌, refl, ap, sym, ◌∙◌, inl, inr, false, Option, none, some, List, [], ◌∷◌, All,
  Result, ok, str_eq,
}
use statsig_cpp_core.Prelude.Effects.{Exec, try_catch, run_try}
use statsig_cpp_core.Json.{JsonApi, JsonLaws}
use statsig_cpp_core.Sticky.{StickyValues, UserPersistedValues, sticky_to_json, persisted_to_json}
use statsig_cpp_core.Json.Entries.{map_some}
use statsig_cpp_core.Sticky.Persisted.{find-persisted_to_json}
use statsig_cpp_core.Slots
use statsig_cpp_core.Host.{World, Faults, emit, freed, report}
use statsig_cpp_core.Storage.Dispatch.{PersistentStorageCallbacks, dispatch_load}
use statsig_cpp_core.Storage.Dispatch.Calls.{dispatch_save_passes, dispatch_delete_passes}
use statsig_cpp_core.Storage.Dispatch.Loads.{dispatch_load_returns, dispatch_load_finds_none}
use statsig_cpp_core.Storage.Dispatch.Requests.{
  StickyMap, entry, KeepsValues, Request, after, after_all, IsRequest, Tells, dispatch,
  dispatch_all,
}

after-cong :
    {J : Type 0} (r : Request J) (m m' : StickyMap J)
    → ((k i : String) → m k i ≡ m' k i)
    → (k i : String) → after r m k i ≡ after r m' k i
after-cong (Request.save p n key name v) m m' h k i = rw (h k i) refl
after-cong (Request.delete_value p n key name) m m' h k i = rw (h k i) refl
after-cong (Request.load p n key) m m' h k i = h k i

module _ (api : JsonApi) (laws : JsonLaws api) (memory : ℕ → ℕ → String) {U : Type 0}
    (heap : ℕ → PersistentStorageCallbacks api.Json U) (faults : Faults) (lock : faults.lock ≡ none)
    (alloc : faults.alloc ≡ none) (view : U → StickyMap api.Json) (slot c : ℕ)
    (law : KeepsValues view (heap c))
    (dumps : (m : UserPersistedValues api.Json)
      → (text : String) × (api.dump (persisted_to_json api m) ≡ ok text)) where
  open api use {Json}

  -- The state that a dispatch leaves says what the map says.
  abbrev Follows : World U → World U → StickyMap Json → Type 0
  Follows w w' m = (w'.slots ≡ w.slots) × ((k i : String) → view w'.user k i ≡ m k i)

  -- A load whose callback returns `o`.
  load_told :
      (o : Option (UserPersistedValues Json)) (p n : ℕ) (m : String → Option (StickyValues Json))
      (w w' : World U)
      → Slots.load_callbacks w.slots slot ≡ some c
      → str_eq (memory p n) "" ≡ false
      → law.load (memory p n) (emit (freed p) w) ≡ (ok o, w')
      → ((i : String) → entry o i ≡ m i)
      → let r = dispatch_load api heap faults memory slot (some p) n w in
        Tells api r.0 m × (r.1.slots ≡ w'.slots) × (r.1.user ≡ w'.user)
  load_told none p n m w w' held nonempty runs same =
      let e =
        dispatch_load_finds_none api heap faults memory lock alloc slot c p n law.load w w' held
          law.has_load nonempty runs in
      rw e (inl (refl, λ i. sym (same i)), refl, refl)
  load_told (some values) p n m w w' held nonempty runs same =
      let (text, dumped) = dumps values in
      let e =
        dispatch_load_returns api heap faults memory lock alloc slot c p n law.load values text w w'
          held law.has_load nonempty runs dumped in
      rw e (
        inr (
          text,
          persisted_to_json api values,
          refl,
          dumped,
          λ i.
              find-persisted_to_json api laws values i
              ∙ ap (map_some (sticky_to_json api)) (same i),
        ),
        refl,
        refl,
      )

  ran-Follows :
      (m : Exec (World U) (Unit {0})) (w w1 w' : World U) (after_it : StickyMap Json)
      (d : Result (Unit {0}) × World U)
      → d ≡ try_catch m (report tt) w1
      → m w1 ≡ (ok tt, w')
      → w1.slots ≡ w.slots
      → (w'.slots ≡ w1.slots) × ((k i : String) → view w'.user k i ≡ after_it k i)
      → Follows w d.1 after_it
  ran-Follows m w w1 w' after_it d e runs same h =
      rw (e ∙ run_try m (report tt) w1 runs) (h.0 ∙ same, h.1)

  dispatch-Follows :
      (r : Request Json) (w : World U)
      → Slots.load_callbacks w.slots slot ≡ some c
      → IsRequest api laws memory r
      → Follows w (dispatch api heap faults memory slot r w) (after r (view w.user))
  dispatch-Follows (Request.save p n key name v) w held (args, parsed, hk, hn, hd, storable) =
      let (w', runs, slots, user) = law.saves key name v (emit (freed p) w) in
      ran-Follows (law.save key name v) w (emit (freed p) w) w' _ _
        (dispatch_save_passes api laws heap faults memory lock alloc slot c p n args law.save key
          name v w held law.has_save parsed hk hn hd storable)
        runs refl (slots, user)
  dispatch-Follows (Request.delete_value p n key name) w held (args, parsed, hk, hn) =
      let (w', runs, slots, user) = law.deletes key name (emit (freed p) w) in
      ran-Follows (law.delete_value key name) w (emit (freed p) w) w' _ _
        (dispatch_delete_passes api laws heap faults memory lock alloc slot c p n args
          law.delete_value key name w held law.has_delete parsed hk hn)
        runs refl (slots, user)
  dispatch-Follows (Request.load p n key) w held (text, nonempty) =
      let (o, same, (w', runs, slots, user)) = law.loads (memory p n) (emit (freed p) w) in
      let (_, slots', user') =
        load_told o p n (view w.user (memory p n)) w w' held (rw text nonempty) runs same in
      (slots' ∙ slots, λ k i. ap (λ u. view u k i) user' ∙ user k i)

  dispatch_all-Follows :
      (requests : List (Request Json)) (w : World U) (m : StickyMap Json)
      → Slots.load_callbacks w.slots slot ≡ some c
      → All (IsRequest api laws memory) requests
      → ((k i : String) → view w.user k i ≡ m k i)
      → Follows w (dispatch_all api heap faults memory slot requests w) (after_all requests m)
  dispatch_all-Follows [] w m held h same = (refl, same)
  dispatch_all-Follows (r ∷ rest) w m held h same =
      let w' : World U = dispatch api heap faults memory slot r w in
      let (slots, user) = dispatch-Follows r w held h.0 in
      let (slots', user') =
        dispatch_all-Follows rest w' (after r m)
          (ap (λ s. Slots.load_callbacks s slot) slots ∙ held) h.1
          (λ k i. user k i ∙ after-cong r (view w.user) m same k i) in
      (slots' ∙ slots, user')

  -- If the lock and the copy do not fail, a slot has callbacks that keep what is saved until it is
  -- deleted, and every map of sticky values can be written, then after any sequence of well-formed
  -- saves, deletions and loads of the native side through the slot's dispatches, a load of a
  -- non-empty key tells what a map from keys and configs to values says after the same requests:
  -- null only if the key has no values, and otherwise the text of an object that has, for each
  -- config, the encoded values of this config, if there are some.
  pub requests_refine_map :
      (requests : List (Request Json)) (p n : ℕ) (w : World U)
      → Slots.load_callbacks w.slots slot ≡ some c
      → All (IsRequest api laws memory) requests
      → str_eq (memory p n) "" ≡ false
      → Tells api
          (dispatch_load api heap faults memory slot
            (some p)
            n
            (dispatch_all api heap faults memory slot requests w)).0
          (after_all requests (view w.user) (memory p n))
  requests_refine_map requests p n w held h nonempty =
      let w1 : World U = dispatch_all api heap faults memory slot requests w in
      let (slots, user) = dispatch_all-Follows requests w (view w.user) held h (λ k i. refl) in
      let (o, same, (w', runs, _, _)) = law.loads (memory p n) (emit (freed p) w1) in
      (load_told o p n (after_all requests (view w.user) (memory p n)) w1 w'
        (ap (λ s. Slots.load_callbacks s slot) slots ∙ held) nonempty runs
        (λ i. same i ∙ user (memory p n) i)).0
