-- ===== src/Storage/Registry/Steps.antt =====
-- Each step of a thread keeps the pool, the storages and the registry consistent.
use statsig_cpp_core.Prelude.{
  ℕ, ◌≡◌, ◌≢◌, refl, sym, subst, ap, ◌∙◌, inl, inr, Option, none, some, List, set, get_elem?,
  get_elem?-lt, length-set, get_elem?-set_self, get_elem?-set_ne,
}
use statsig_cpp_core.Json.{ℤ, pos, negsuc}
use statsig_cpp_core.Slots.{release_slot}
use statsig_cpp_core.Slots.Claim.{IsFree}
use statsig_cpp_core.Storage.Tables.{Functions, functions, functions-injective}
use statsig_cpp_core.Storage.{PersistentStorage}
use statsig_cpp_core.Storage.Registry.{Phase, Object, update}
use statsig_cpp_core.Storage.Registry.Consistent.{
  IsConsistent, Each, Fits, Keeps-IsConsistent, update_self, update_other, update_cases,
}

pub pos-injective : (i j : ℕ) → pos i ≡ pos j → i ≡ j
pos-injective i j e = cc

abbrev pub at_rest : ℤ → Phase → ℕ → Object
at_rest z phase c = record { storage = record { callbacks = c; ref = 0; slot = z }; phase = phase }

module _ (slots : List (Option ℕ)) (objects : ℕ → Option Object) (entries : ℕ → Option Functions)
    (i : ℕ) (v : IsConsistent slots objects entries) where
  -- A slot that a storage has is not free.
  taken :
      (j k m : ℕ) (p : Object)
      → IsFree slots k
      → objects j ≡ some p
      → p.storage.slot ≡ pos m
      → k ≢ m
  taken j k m p free e at same = let own = v.owns j m p e at in cc

  -- No other storage has the slot of the storage of this thread.
  pub others :
      (z : ℤ) (o : Object)
      → objects i ≡ some o
      → o.storage.slot ≡ z
      → (j k : ℕ) (p : Object) → j ≢ i
      → objects j ≡ some p
      → p.storage.slot ≡ pos k
      → z ≢ pos k
  others z o e at j k p n f at' same = n (v.apart j i k p o f e at' (at ∙ same))

  ref_of_owner : (ref k : ℕ) → entries ref ≡ some (functions k) → ref ≢ 0
  ref_of_owner ref k e = let (_, _, _, _, _, n) = v.owned ref k e in n

  owns_none :
      (x : Option Object)
      → Each (λ o. o.storage.ref ≡ 0) x
      → (ref : ℕ) → ref ≢ 0
      → Each (λ o. o.storage.ref ≢ ref) x
  owns_none none h ref n = tt
  owns_none (some o) h ref n = λ same. n (sym same ∙ h)

  -- A new storage, with a slot that was free.
  pub claimed-IsConsistent :
      (k c : ℕ)
      → objects i ≡ none
      → IsFree slots k
      → IsConsistent
          (set slots k (some c))
          (update i (some (at_rest (pos k) Phase.claimed c)) objects)
          entries
  claimed-IsConsistent k c new free =
      Keeps-IsConsistent slots _ objects entries entries i none
        (some (at_rest (pos k) Phase.claimed c)) v new
        (record {
          size = length-set slots k _ ∙ v.size;
          fits = record {
            own = λ m at.
                subst (λ l. get_elem? (set slots k (some c)) l ≡ some (some c))
                  (pos-injective k m at)
                  (get_elem?-set_self slots k _ (get_elem?-lt slots k _ free));
            alone = λ j m p n e at at'. taken j k m p free e at (pos-injective k m at');
            idle = λ n. refl;
            enrolled = λ n. absurd (n refl);
          };
          slots_kept = λ j m p n e at. get_elem?-set_ne slots k m _ (taken j k m p free e at);
          entries_kept = λ j p n e m. refl;
          owned = λ ref m e. inr (e, tt);
        })

  -- A storage without a ref is replaced by one without a ref: a new one without a slot, or one
  -- with the same slot.
  pub rested-IsConsistent :
      (x : Option Object) (o : Object)
      → objects i ≡ x
      → Each (λ p. p.storage.ref ≡ 0) x
      → o.storage.ref ≡ 0
      → ((k : ℕ) → o.storage.slot ≡ pos k → get_elem? slots k ≡ some (some o.storage.callbacks))
      → ((j k : ℕ) (p : Object)
          → j ≢ i
          → objects j ≡ some p
          → p.storage.slot ≡ pos k
          → o.storage.slot ≢ pos k)
      → IsConsistent slots (update i (some o) objects) entries
  rested-IsConsistent x o e no_ref z own alone =
      Keeps-IsConsistent slots slots objects entries entries i x (some o) v e (record {
        size = v.size;
        fits = record { own = own; alone = alone; idle = λ n. z; enrolled = λ n. absurd (n z) };
        slots_kept = λ j k p n f at. refl;
        entries_kept = λ j p n f m. refl;
        owned = λ ref m there. inr (there, owns_none x no_ref ref (ref_of_owner ref m there));
      })

  -- Only the phase changes.
  pub phased-IsConsistent :
      (s : PersistentStorage) (before after : Phase)
      → objects i ≡ some (record { storage = s; phase = before })
      → s.ref ≡ 0
      → IsConsistent slots (update i (some (record { storage = s; phase = after })) objects) entries
  phased-IsConsistent s before after e z =
      rested-IsConsistent _ (record { storage = s; phase = after }) e z z (λ k. v.owns i k _ e)
        (others s.slot _ e refl)

  -- The storage of a thread gives up its slot, or ends.
  pub released-IsConsistent :
      (o : Object) (z : ℤ) (y : Option Object)
      → objects i ≡ some o
      → o.storage.ref ≡ 0
      → o.storage.slot ≡ z
      → ((slots' : List (Option ℕ)) → Each (Fits slots' objects entries i) y)
      → IsConsistent (release_slot slots z) (update i y objects) entries
  unfolding release_slot
  released-IsConsistent o (negsuc n) y e z at fits =
      Keeps-IsConsistent slots slots objects entries entries i (some o) y v e (record {
        size = v.size;
        fits = fits slots;
        slots_kept = λ j k p n f at. refl;
        entries_kept = λ j p n f m. refl;
        owned = λ ref m there. inr (there, owns_none (some o) z ref (ref_of_owner ref m there));
      })
  released-IsConsistent o (pos k) y e z at fits =
      Keeps-IsConsistent slots _ objects entries entries i (some o) y v e (record {
        size = length-set slots k none ∙ v.size;
        fits = fits (set slots k none);
        slots_kept = λ j m p n f at'.
            get_elem?-set_ne slots k m none
              (λ same. others (pos k) o e at j m p n f at' (ap pos same));
        entries_kept = λ j p n f m. refl;
        owned = λ ref m there. inr (there, owns_none (some o) z ref (ref_of_owner ref m there));
      })

  -- The native side gives the storage of the thread a ref that it does not have yet.
  pub granted-IsConsistent :
      (k ref : ℕ) (o : Object)
      → objects i ≡ some o
      → o.storage.ref ≡ 0
      → o.storage.slot ≡ pos k
      → ref ≢ 0
      → entries ref ≡ none
      → IsConsistent slots
          (update i
            (some (record { storage = record o.storage { ref = ref }; phase = Phase.alive }))
            objects)
          (update ref (some (functions k)) entries)
  granted-IsConsistent k ref o e z at nonzero new =
      let o' : Object = record { storage = record o.storage { ref = ref }; phase = Phase.alive } in
      Keeps-IsConsistent slots slots objects entries (update ref (some (functions k)) entries) i
        (some o) (some o') v e
        (record {
          size = v.size;
          fits = record {
            own = λ m. v.owns i m o e;
            alone = others o.storage.slot o e refl;
            idle = λ n. absurd (n refl);
            enrolled = λ n. (k, at, update_self ref (some (functions k)) entries);
          };
          slots_kept = λ j m p n f at. refl;
          entries_kept = λ j p n f m.
              let (l, _, there) = v.enrolled j p f m in
              update_other ref p.storage.ref (some (functions k)) entries (λ same. cc);
          owned = λ r m there.
              elim (update_cases ref r (some (functions k)) entries (functions m) there) [
                | inl (same, there') ↦ inl (
                  o',
                  refl,
                  sym same,
                  at ∙ ap pos (sym (functions-injective m k (sym there'))),
                  λ none_ref. nonzero (sym same ∙ none_ref),
                )
                | inr (n, before) ↦ inr (before, λ same. ref_of_owner r m before (sym same ∙ z))
              ];
        })

  -- The native side forgets the ref of the storage of the thread.
  pub forgotten-IsConsistent :
      (o : Object)
      → objects i ≡ some o
      → o.storage.ref ≢ 0
      → IsConsistent slots
          (update i (some (at_rest o.storage.slot Phase.gone o.storage.callbacks)) objects)
          (update o.storage.ref none entries)
  forgotten-IsConsistent o e nonzero =
      Keeps-IsConsistent slots slots objects entries (update o.storage.ref none entries) i (some o)
        (some (at_rest o.storage.slot Phase.gone o.storage.callbacks)) v e
        (record {
          size = v.size;
          fits = record {
            own = λ m at. v.owns i m o e at;
            alone = others o.storage.slot o e refl;
            idle = λ n. refl;
            enrolled = λ n. absurd (n refl);
          };
          slots_kept = λ j m p n f at. refl;
          entries_kept = λ j p n f m.
              let (l, at, there) = v.enrolled j p f m in
              let (l', at', there') = v.enrolled i o e nonzero in
              update_other o.storage.ref p.storage.ref none entries (λ same. n (
                v.apart j i l p o f e at (
                  at'
                  ∙ ap pos
                      (functions-injective l' l (sym there' ∙ ap entries (sym same) ∙ there)))));
          owned = λ r m there.
              elim (update_cases o.storage.ref r none entries (functions m) there) [
                | inl (same, at) ↦ cc
                | inr (n, before) ↦ inr (before, λ same. n (sym same))
              ];
        })
