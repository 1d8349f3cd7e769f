-- ===== src/Storage/Sharing/Pointers.antt =====
-- The counts are the numbers of pointers, under each operation on pointers.
use statsig_cpp_core.Prelude.{
  ℕ, zero, suc, ◌+◌, ◌≤◌, ◌<◌, ◌≡◌, refl, inl, inr, Option, none, some, List, [], ◌∷◌, set,
  get_elem?, count, one, count-cons, ◌==◌, if◌then◌else◌, arith, Bool-cases,
}
use statsig_cpp_core.Storage.Tables.{Functions, functions}
use statsig_cpp_core.Json.{ℤ, pos, negsuc}
use statsig_cpp_core.Slots.{claim_slot}
use statsig_cpp_core.Slots.Claim.{claim_slot_lowest}
use statsig_cpp_core.Storage.Sharing.{
  Holder, Pool, allocate, retain, drop, drop_locked, drop_entry, release, settle,
}
use statsig_cpp_core.Storage.Sharing.Counts.{in_slots, in_storages, uses, in_slots-set}

-- The count of `c` is that of its pointers, `n` of which are in no list; and `c` has been freed once
-- if it has been allocated and has no pointer any more, and otherwise not at all.
pub record IsBalanced (c n : ℕ) (p : Pool) : Type 0 where
  pub refs : p.counts c ≡ uses c p + n
  pub gone : c < p.next → count c p.freed ≡ (if p.counts c == 0 then 1 else 0)
  pub fresh : p.next ≤ c → (p.counts c ≡ 0) × (count c p.freed ≡ 0)

storages-drop_entry : (o : Option (Option ℕ)) (p : Pool) → (drop_entry o p).storages ≡ p.storages
unfolding drop_entry drop
storages-drop_entry none p = refl
storages-drop_entry (some none) p = refl
storages-drop_entry (some (some d)) p = refl

pub storages-release : (z : ℤ) (p : Pool) → (release z p).storages ≡ p.storages
unfolding release
storages-release (negsuc n) p = refl
storages-release (pos k) p = storages-drop_entry (get_elem? p.slots k) p

module _ (c : ℕ) where
  pub allocate-IsBalanced :
      (n : ℕ) (p : Pool) → IsBalanced c n p → IsBalanced c (n + one c p.next) (allocate p)
  unfolding allocate
  allocate-IsBalanced n p h = record {
    refs = ground (arith, h.refs, h.fresh);
    gone = λ lt. ground (arith, h.gone, h.fresh, lt);
    fresh = λ le. ground (arith, h.fresh, le);
  }

  pub retain-IsBalanced :
      (n d : ℕ) (p : Pool)
      → (c ≡ d → 1 ≤ p.counts c)
      → IsBalanced c n p
      → IsBalanced c (n + one c d) (retain d p)
  unfolding retain
  retain-IsBalanced n d p live h = record {
    refs = ground (arith, h.refs);
    gone = λ lt. ground (arith, h.gone, live, lt);
    fresh = λ le. ground (arith, h.fresh, live, le);
  }

  pub drop-IsBalanced :
      (n d : ℕ) (p : Pool) → IsBalanced c (n + one c d) p → IsBalanced c n (drop d p)
  unfolding drop
  drop-IsBalanced n d p h = record {
    refs = ground (arith, h.refs);
    gone = λ lt. ground (arith, h.gone, h.refs, lt, count-cons c d p.freed);
    fresh = λ le. ground (arith, h.fresh, h.refs, le, count-cons c d p.freed);
  }

  -- A pointer that moves between the lists and `n`.
  pub move-IsBalanced :
      (n m : ℕ) (p : Pool) (slots : List (Option ℕ)) (storages : List Holder)
      (ending flights : List ℕ)
      → in_slots c slots + in_storages c storages + count c ending + count c flights + m
        ≡ uses c p + n
      → IsBalanced c n p
      → IsBalanced c m
          (record p { slots = slots; storages = storages; ending = ending; flights = flights })
  move-IsBalanced n m p slots storages ending flights e h = record {
    refs = omega (arith, e, h.refs);
    gone = h.gone;
    fresh = h.fresh;
  }

  -- Which callbacks were freed under the mutex does not matter.
  mark-IsBalanced :
      (n : ℕ) (p : Pool) (locked : List ℕ)
      → IsBalanced c n p
      → IsBalanced c n (record p { freed_locked = locked })
  mark-IsBalanced n p locked h = record { refs = h.refs; gone = h.gone; fresh = h.fresh }

  in_slots-set_missing :
      (slots : List (Option ℕ)) (k : ℕ) (new : Option ℕ)
      → get_elem? slots k ≡ none
      → in_slots c (set slots k new) ≡ in_slots c slots
  in_slots-set_missing [] k new e = refl
  in_slots-set_missing (a ∷ slots) zero new e = cc
  in_slots-set_missing (a ∷ slots) (suc k) new e = omega (arith, in_slots-set_missing slots k new e)

  clear-IsBalanced :
      (n k : ℕ) (o : Option (Option ℕ)) (p : Pool)
      → get_elem? p.slots k ≡ o
      → IsBalanced c n p
      → IsBalanced c n (record (drop_entry o p) { slots = set (drop_entry o p).slots k none })
  unfolding drop_entry drop_locked drop
  clear-IsBalanced n k none p e h =
      move-IsBalanced n n p (set p.slots k none) p.storages p.ending p.flights
        (omega (arith, in_slots-set_missing p.slots k none e)) h
  clear-IsBalanced n k (some none) p e h =
      move-IsBalanced n n p (set p.slots k none) p.storages p.ending p.flights
        (omega (arith, in_slots-set c p.slots k none none e)) h
  clear-IsBalanced n k (some (some d)) p e h =
      mark-IsBalanced n (drop d (record p { slots = set p.slots k none })) _ (
        drop-IsBalanced n d (record p { slots = set p.slots k none })
          (move-IsBalanced n (n + one c d) p (set p.slots k none) p.storages p.ending p.flights
            (omega (arith, in_slots-set c p.slots k (some d) none e)) h))

  pub release-IsBalanced :
      (n : ℕ) (z : ℤ) (p : Pool) → IsBalanced c n p → IsBalanced c n (release z p)
  unfolding release
  release-IsBalanced n (negsuc k) p h = h
  release-IsBalanced n (pos k) p h = clear-IsBalanced n k (get_elem? p.slots k) p refl h

  -- A storage takes the pointer to its callbacks.
  hold-IsBalanced :
      (n d : ℕ) (z : ℤ) (p : Pool)
      → IsBalanced c (n + one c d) p
      → IsBalanced c n (record p { storages = record { callbacks = d; slot = z } ∷ p.storages })
  hold-IsBalanced n d z p h =
      move-IsBalanced (n + one c d) n p p.slots (record { callbacks = d; slot = z } ∷ p.storages)
        p.ending p.flights (omega arith) h

  pub settle-IsBalanced :
      (create : Functions → ℕ) (d : ℕ) (slots : List (Option ℕ)) (p : Pool)
      → IsBalanced c (0 + one c d + one c d) p
      → IsBalanced c 0 (settle create d (claim_slot p.slots (some d)) p)
  unfolding settle
  settle-IsBalanced create d slots p h = elim (claim_slot_lowest p.slots (some d)) [
    | inl (full, e) ↦
        rw e (hold-IsBalanced 0 d (negsuc 0) (drop d p) (drop-IsBalanced (0 + one c d) d p h))
    | inr (k, free, _, e) ↦
        let p' : Pool = record p { slots = set p.slots k (some d) } in
        let h' : IsBalanced c (0 + one c d) p' =
          move-IsBalanced (0 + one c d + one c d) (0 + one c d) p (set p.slots k (some d))
            p.storages p.ending p.flights
            (omega (arith, in_slots-set c p.slots k none (some d) free)) h in
        elim (Bool-cases (create (functions k) == 0)) [
          | inl zero_ref ↦
              rw (e, zero_ref)
                (hold-IsBalanced 0 d (negsuc 0) (release (pos k) p')
                  (release-IsBalanced (0 + one c d) (pos k) p' h'))
          | inr ref ↦ rw (e, ref) (hold-IsBalanced 0 d (pos k) p' h')
        ]
  ]
