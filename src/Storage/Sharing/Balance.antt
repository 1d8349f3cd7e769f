-- ===== src/Storage/Sharing/Balance.antt =====
-- The counts are the numbers of pointers, at each step.
use statsig_cpp_core.Prelude.{
  ℕ, zero, suc, ◌+◌, ◌≤◌, ◌≡◌, refl, ap, sym, ◌∙◌, Option, none, some, List, [], ◌∷◌, get_elem?,
  remove_at, one, count-cons, count-remove_at, arith,
}
use statsig_cpp_core.Storage.Tables.{Functions}
use statsig_cpp_core.Slots.{load_callbacks}
use statsig_cpp_core.Storage.Sharing.{
  Holder, Pool, allocate, retain, drop, release, construct, destroy, enter_with, enter, leave, Step,
  constructs, destroys, ends, enters, leaves, Reach, here, next, end_members,
}
use statsig_cpp_core.Storage.Sharing.Counts.{in_slot, in_slots, in_storages-remove_at}
use statsig_cpp_core.Storage.Sharing.Pointers.{
  IsBalanced, storages-release, settle-IsBalanced, release-IsBalanced, move-IsBalanced,
  drop-IsBalanced, retain-IsBalanced, allocate-IsBalanced,
}

module _ (c : ℕ) where
  construct-IsBalanced :
      (create : Functions → ℕ) (p : Pool) → IsBalanced c 0 p → IsBalanced c 0 (construct create p)
  unfolding construct retain allocate
  construct-IsBalanced create p h =
      settle-IsBalanced c create p.next p.slots (retain p.next (allocate p)) (
        retain-IsBalanced c (0 + one c p.next) p.next (allocate p) (λ e. ground (arith, e))
          (allocate-IsBalanced c 0 p h))

  destroy-IsBalanced :
      (i : ℕ) (s : Holder) (p : Pool)
      → get_elem? p.storages i ≡ some s
      → IsBalanced c 0 p
      → IsBalanced c 0 (destroy i s p)
  unfolding destroy
  destroy-IsBalanced i s p e h =
      let r : Pool = release s.slot p in
      move-IsBalanced c 0 0 r r.slots (remove_at i r.storages) (s.callbacks ∷ r.ending) r.flights
        (omega (
          arith,
          in_storages-remove_at c r.storages i s
              (ap (λ l. get_elem? l i) (storages-release s.slot p) ∙ e),
          count-cons c s.callbacks r.ending,
        ))
        (release-IsBalanced c 0 s.slot p h)

  end_members-IsBalanced :
      (i d : ℕ) (p : Pool)
      → get_elem? p.ending i ≡ some d
      → IsBalanced c 0 p
      → IsBalanced c 0 (end_members i d p)
  unfolding end_members drop
  end_members-IsBalanced i d p e h =
      drop-IsBalanced c 0 d (record p { ending = remove_at i p.ending })
        (move-IsBalanced c 0 (0 + one c d) p p.slots p.storages (remove_at i p.ending) p.flights
          (omega (arith, count-remove_at c p.ending i d e)) h)

  held-in_slots :
      (slots : List (Option ℕ)) (k : ℕ) → load_callbacks slots k ≡ some c → 1 ≤ in_slots c slots
  unfolding load_callbacks
  held-in_slots [] k e = cc
  held-in_slots (o ∷ slots) zero e =
      let f : in_slot c o ≡ 1 = ap (in_slot c) e ∙ ground arith in omega (arith, f)
  held-in_slots (o ∷ slots) (suc k) e = omega (arith, held-in_slots slots k e)

  enter_with-IsBalanced :
      (slot : ℕ) (o : Option ℕ) (p : Pool)
      → load_callbacks p.slots slot ≡ o
      → IsBalanced c 0 p
      → IsBalanced c 0 (enter_with o p)
  unfolding enter_with retain
  enter_with-IsBalanced slot none p e h = h
  enter_with-IsBalanced slot (some d) p e h =
      let p' : Pool = retain d p in
      move-IsBalanced c (0 + one c d) 0 p' p'.slots p'.storages p'.ending (d ∷ p'.flights)
        (omega (arith, count-cons c d p'.flights))
        (retain-IsBalanced c 0 d p
          (λ same. omega (arith, h.refs, held-in_slots p.slots slot (e ∙ ap some (sym same)))) h)

  enter-IsBalanced : (slot : ℕ) (p : Pool) → IsBalanced c 0 p → IsBalanced c 0 (enter slot p)
  unfolding enter
  enter-IsBalanced slot p h = enter_with-IsBalanced slot (load_callbacks p.slots slot) p refl h

  leave-IsBalanced :
      (i d : ℕ) (p : Pool)
      → get_elem? p.flights i ≡ some d
      → IsBalanced c 0 p
      → IsBalanced c 0 (leave i d p)
  unfolding leave drop
  leave-IsBalanced i d p e h =
      drop-IsBalanced c 0 d (record p { flights = remove_at i p.flights })
        (move-IsBalanced c 0 (0 + one c d) p p.slots p.storages p.ending (remove_at i p.flights)
          (omega (arith, count-remove_at c p.flights i d e)) h)

  Step-IsBalanced : {p q : Pool} → Step p q → IsBalanced c 0 p → IsBalanced c 0 q
  Step-IsBalanced {p = p} (constructs create) h = construct-IsBalanced create p h
  Step-IsBalanced {p = p} (destroys i s e) h = destroy-IsBalanced i s p e h
  Step-IsBalanced {p = p} (ends i d e) h = end_members-IsBalanced i d p e h
  Step-IsBalanced {p = p} (enters slot) h = enter-IsBalanced slot p h
  Step-IsBalanced {p = p} (leaves i d e) h = leave-IsBalanced i d p e h

  pub Reach-IsBalanced : {p q : Pool} → IsBalanced c 0 p → Reach p q → IsBalanced c 0 q
  Reach-IsBalanced h here = h
  Reach-IsBalanced h (next way step) = Step-IsBalanced step (Reach-IsBalanced h way)
