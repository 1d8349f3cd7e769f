-- ===== src/Storage/Registry/Reached.antt =====
-- What holds in every state that interleavings of constructions and destructions reach.
use statsig_cpp_core.Prelude.{
  ℕ, ◌≡◌, ◌≢◌, ◌↔◌, refl, sym, ap, ◌∙◌, subst, inl, inr, Option, none, some, arith,
  length-replicate, ◌==◌, Bool-cases,
}
use statsig_cpp_core.Json.{ℤ, pos, negsuc}
use statsig_cpp_core.Slots.{max_slots, empty_slots, load_callbacks}
use statsig_cpp_core.Slots.Claim.{claim_slot_lowest}
use statsig_cpp_core.Storage.Tables.{functions, functions-injective}
use statsig_cpp_core.Storage.{PersistentStorage}
use statsig_cpp_core.Storage.Registry.{
  Phase, Object, Registry, claim, enroll, withdraw, unregister, clear, Step, claims, enrolls,
  withdraws, unregisters, clears, other, Reach, here, next,
}
use statsig_cpp_core.Storage.Registry.Consistent.{IsConsistent}
use statsig_cpp_core.Storage.Registry.Steps.{
  claimed-IsConsistent, rested-IsConsistent, phased-IsConsistent, released-IsConsistent,
  granted-IsConsistent, forgotten-IsConsistent, others, pos-injective,
}

module _ {U : Type 0} where
  -- The start of the program: an empty pool, no storage, and nothing registered.
  abbrev pub IsStart : Registry U → Type 0
  IsStart r =
      (r.world.slots ≡ empty_slots)
      × ((i : ℕ) → r.objects i ≡ none)
      × ((ref : ℕ) → r.entries ref ≡ none)

  abbrev IsGood : Registry U → Type 0
  IsGood r = IsConsistent r.world.slots r.objects r.entries

  claim-IsGood : (i c : ℕ) (r : Registry U) → r.objects i ≡ none → IsGood r → IsGood (claim i c r)
  unfolding claim
  claim-IsGood i c r e v = elim (claim_slot_lowest r.world.slots (some c)) [
    | inl (full, is) ↦
        rw is (rested-IsConsistent _ _ _ i v none _ e tt refl (λ k at. cc) (λ j k p n f at at'. cc))
    | inr (k, free, _, is) ↦ rw is (claimed-IsConsistent _ _ _ i v k c e free)
  ]

  enroll-IsGood :
      (i ref : ℕ) (s : PersistentStorage) (z : ℤ) (r : Registry U)
      → s.slot ≡ z
      → r.objects i ≡ some (record { storage = s; phase = Phase.claimed })
      → r.entries ref ≡ none
      → IsGood r
      → IsGood (enroll i s ref z r)
  unfolding enroll
  enroll-IsGood i ref s (negsuc n) r at e new v =
      phased-IsConsistent _ _ _ i v s Phase.claimed Phase.alive e (v.idle i _ e (λ h. cc))
  enroll-IsGood i ref s (pos k) r at e new v = elim (Bool-cases (ref == 0)) [
    | inl z ↦
        rw z
          (phased-IsConsistent _ _ _ i v s Phase.claimed Phase.refused e (v.idle i _ e (λ h. cc)))
    | inr n ↦
        rw n
          (granted-IsConsistent _ _ _ i v k ref _ e (v.idle i _ e (λ h. cc)) at (ground arith) new)
  ]

  withdraw-IsGood :
      (i : ℕ) (s : PersistentStorage) (r : Registry U)
      → r.objects i ≡ some (record { storage = s; phase = Phase.refused })
      → IsGood r
      → IsGood (withdraw i s r)
  unfolding withdraw
  withdraw-IsGood i s r e v =
      let z = v.idle i _ e (λ h. cc) in
      released-IsConsistent _ _ _ i v _ s.slot _ e z refl (λ slots. record {
        own = λ k at. cc;
        alone = λ j k p n f at at'. cc;
        idle = λ n. z;
        enrolled = λ n. absurd (n z);
      })

  unregister-IsGood :
      (i : ℕ) (s : PersistentStorage) (r : Registry U)
      → r.objects i ≡ some (record { storage = s; phase = Phase.alive })
      → IsGood r
      → IsGood (unregister i s r)
  unfolding unregister
  unregister-IsGood i s r e v = elim (Bool-cases (s.ref == 0)) [
    | inl z ↦ rw z (
        rested-IsConsistent _ _ _ i v _
          (record { storage = record s { ref = 0 }; phase = Phase.gone }) e (ground arith) refl
          (λ k. v.owns i k _ e) (others _ _ _ i v s.slot _ e refl))
    | inr n ↦ rw n (forgotten-IsConsistent _ _ _ i v _ e (ground arith))
  ]

  clear-IsGood :
      (i : ℕ) (s : PersistentStorage) (r : Registry U)
      → r.objects i ≡ some (record { storage = s; phase = Phase.gone })
      → IsGood r
      → IsGood (clear i s r)
  unfolding clear
  clear-IsGood i s r e v =
      released-IsConsistent _ _ _ i v _ s.slot none e (v.idle i _ e (λ h. cc)) refl (λ slots. tt)

  Step-IsGood : {p q : Registry U} → Step p q → IsGood p → IsGood q
  Step-IsGood {p = p} (claims i c e) v = claim-IsGood i c p e v
  Step-IsGood {p = p} (enrolls i ref s e new) v = enroll-IsGood i ref s s.slot p refl e new v
  Step-IsGood {p = p} (withdraws i s e) v = withdraw-IsGood i s p e v
  Step-IsGood {p = p} (unregisters i s e) v = unregister-IsGood i s p e v
  Step-IsGood {p = p} (clears i s e) v = clear-IsGood i s p e v
  Step-IsGood {p = p} (other w e) v = rw e v

  Reach-IsGood : {p q : Registry U} → IsGood p → Reach p q → IsGood q
  Reach-IsGood v here = v
  Reach-IsGood v (next way step) = Step-IsGood step (Reach-IsGood v way)

  start-IsGood : (p : Registry U) → IsStart p → IsGood p
  start-IsGood p (slots, objects, entries) = rw slots (record {
    size = length-replicate {A = Option ℕ} max_slots none;
    owns = λ i k o e at. let h = objects i in cc;
    apart = λ i j k o q e f at at'. let h = objects i in cc;
    idle = λ i o e n. let h = objects i in cc;
    enrolled = λ i o e n. absurd (let h = objects i in cc);
    owned = λ ref k e. absurd (let h = entries ref in cc);
  })

  pub reached-IsConsistent :
      (p q : Registry U) → IsStart p → Reach p q → IsConsistent q.world.slots q.objects q.entries
  reached-IsConsistent p q begin way = Reach-IsGood (start-IsGood p begin) way

  -- A storage has this ref and this slot, and the slot has its callbacks.
  abbrev pub Serves : Registry U → ℕ → ℕ → Type 0
  Serves r ref k =
      (i : ℕ) × (o : Object) × (r.objects i ≡ some o)
      × (o.storage.ref ≡ ref)
      × (ref ≢ 0)
      × (o.storage.slot ≡ pos k)
      × (load_callbacks r.world.slots k ≡ some o.storage.callbacks)

  -- However the parts of constructions and destructions of storages in several threads interleave:
  -- if the native side gives no ref that it still has, then at each moment it has the functions of
  -- slot k for a ref exactly if a storage has this ref and slot k, the ref is not 0, and
  -- load_callbacks finds this storage's callbacks there.
  pub entries_exact :
      (p q : Registry U) (ref k : ℕ)
      → IsStart p
      → Reach p q
      → (q.entries ref ≡ some (functions k)) ↔ Serves q ref k
  unfolding load_callbacks
  entries_exact p q ref k begin way =
      let v = reached-IsConsistent p q begin way in
      (
        λ h.
            let (i, o, e, is, at, n) = v.owned ref k h in
            (i, o, e, is, n, at, rw (v.owns i k o e at) refl),
        λ (i, o, e, is, n, at, held).
            let (m, at', there) = v.enrolled i o e (λ z. n (sym is ∙ z)) in
            subst (λ a. q.entries a ≡ some (functions k)) is
              (there ∙ ap (λ l. some (functions l)) (pos-injective m k (sym at' ∙ at))),
      )

  -- At each moment of such an interleaving, no two storages have one ref other than 0.
  pub refs_apart :
      (p q : Registry U) (i j : ℕ) (o u : Object)
      → IsStart p
      → Reach p q
      → q.objects i ≡ some o
      → q.objects j ≡ some u
      → o.storage.ref ≢ 0
      → o.storage.ref ≡ u.storage.ref
      → i ≡ j
  refs_apart p q i j o u begin way e f n same =
      let v = reached-IsConsistent p q begin way in
      let (k, at, there) = v.enrolled i o e n in
      let (m, at', there') = v.enrolled j u f (λ z. n (same ∙ z)) in
      v.apart i j k o u e f at
        (at' ∙ ap pos (functions-injective m k (sym there' ∙ ap q.entries (sym same) ∙ there)))
