-- ===== src/Storage/Sharing.antt =====
-- src/persistent_storage.cpp: the shared pointers to the callbacks, in a storage (`callbacks_`), in a
-- slot of the pool, and in each dispatch that runs (`cbs`). A control block is its address and a
-- count; a count that falls to 0 frees the callbacks. The dispatches and the wrapper's operations
-- interleave in any order: a destructor's body and the end of the storage's own pointer after it are
-- two steps. A construction is one step here, although it takes the mutex again if the native side
-- refuses; Storage.Registry has the parts of it, without the counts.
pub mod Counts
pub mod Pointers
pub mod Balance
pub mod Safety
pub mod Refines
pub mod Lifetime
pub mod Locked
use statsig_cpp_core.Prelude.{
  ℕ, suc, ◌-◌, ◌≡◌, Option, none, some, List, ◌∷◌, set, get_elem?, remove_at, ◌==◌, if◌then◌else◌,
}
use statsig_cpp_core.Storage.Tables.{Functions, functions}
use statsig_cpp_core.Json.{ℤ, pos, negsuc}
use statsig_cpp_core.Slots.{claim_slot, load_callbacks}

-- `callbacks_` and `slot_` of a storage.
pub record Holder : Type 0 where
  pub callbacks : ℕ
  pub slot : ℤ

pub record Pool : Type 0 where
  pub slots : List (Option ℕ)
  pub storages : List Holder
  -- the `callbacks_` of the storages whose destructor's body has run
  pub ending : List ℕ
  -- the `cbs` of the dispatches that run
  pub flights : List ℕ
  pub counts : ℕ → ℕ
  -- the callbacks that are freed, newest first
  pub freed : List ℕ
  -- those of them that were freed while the mutex was held
  pub freed_locked : List ℕ
  -- how many callbacks have been allocated: the next address
  pub next : ℕ

-- A new control block, with its first pointer.
unfoldable pub allocate : Pool → Pool
allocate p = record p { counts = λ k. if k == p.next then 1 else p.counts k; next = suc p.next }

-- A copy of a pointer.
unfoldable pub retain : ℕ → Pool → Pool
retain c p = record p { counts = λ k. if k == c then suc (p.counts k) else p.counts k }

-- The end of a pointer.
unfoldable pub drop : ℕ → Pool → Pool
drop c p = record p {
  counts = λ k. if k == c then p.counts k - 1 else p.counts k;
  freed = if p.counts c == 1 then c ∷ p.freed else p.freed;
}

-- The end of a pointer while the mutex is held.
unfoldable pub drop_locked : ℕ → Pool → Pool
unfolding drop
drop_locked c p = record (drop c p) {
  freed_locked = if p.counts c == 1 then c ∷ p.freed_locked else p.freed_locked;
}

-- The end of what a slot holds, if it holds something. The mutex is held.
unfoldable pub drop_entry : Option (Option ℕ) → Pool → Pool
unfolding drop_locked
drop_entry none p = p
drop_entry (some none) p = p
drop_entry (some (some c)) p = drop_locked c p

-- `slots()[slot] = nullptr`, under the mutex
unfoldable pub release : ℤ → Pool → Pool
unfolding drop_entry
release (negsuc n) p = p
release (pos k) p =
    let p' : Pool = drop_entry (get_elem? p.slots k) p in record p' { slots = set p'.slots k none }

-- The constructor after the loop of `claim_slot`: `c` is the address of the callbacks, and the
-- parameter of `claim_slot` has been moved into the slot, or ends, after the lock. `create` gives the ref that the
-- native side gives for the functions of slot `k`.
unfoldable pub settle : (Functions → ℕ) → ℕ → ℤ × List (Option ℕ) → Pool → Pool
unfolding drop release
settle create c (negsuc n, slots) p =
    let p' : Pool = drop c p in
    record p' { storages = record { callbacks = c; slot = negsuc 0 } ∷ p'.storages }
settle create c (pos k, slots) p =
    let p' : Pool = record p { slots = slots } in
    let refused : Pool = release (pos k) p' in
    if create (functions k) == 0
    then record refused { storages = record { callbacks = c; slot = negsuc 0 } ∷ refused.storages }
    else record p' { storages = record { callbacks = c; slot = pos k } ∷ p'.storages }

-- `PersistentStorage(callbacks)`
unfoldable pub construct : (Functions → ℕ) → Pool → Pool
unfolding allocate retain settle
construct create p =
    settle create p.next (claim_slot p.slots (some p.next)) (retain p.next (allocate p))

-- `~PersistentStorage()` of the storage at place `i`: the body, with the members still alive.
unfoldable pub destroy : ℕ → Holder → Pool → Pool
unfolding release
destroy i s p =
    let p' : Pool = release s.slot p in
    record p' { storages = remove_at i p'.storages; ending = s.callbacks ∷ p'.ending }

-- The end of the members, after the body of the destructor.
unfoldable pub end_members : ℕ → ℕ → Pool → Pool
unfolding drop
end_members i c p = let p' : Pool = drop c p in record p' { ending = remove_at i p'.ending }

-- A dispatch starts with `load_callbacks(slot)`; without callbacks it ends at once.
unfoldable pub enter_with : Option ℕ → Pool → Pool
unfolding retain
enter_with none p = p
enter_with (some c) p = let p' : Pool = retain c p in record p' { flights = c ∷ p'.flights }

unfoldable pub enter : ℕ → Pool → Pool
unfolding enter_with
enter slot p = enter_with (load_callbacks p.slots slot) p

-- The dispatch at place `i` ends, by a return or an exception.
unfoldable pub leave : ℕ → ℕ → Pool → Pool
unfolding drop
leave i c p = let p' : Pool = drop c p in record p' { flights = remove_at i p'.flights }

pub data Step (p : Pool) : Pool → Type 0 where
  constructs : (create : Functions → ℕ) → Step p (construct create p)
  destroys : (i : ℕ) (s : Holder) → get_elem? p.storages i ≡ some s → Step p (destroy i s p)
  ends : (i c : ℕ) → get_elem? p.ending i ≡ some c → Step p (end_members i c p)
  enters : (slot : ℕ) → Step p (enter slot p)
  leaves : (i c : ℕ) → get_elem? p.flights i ≡ some c → Step p (leave i c p)

pub data Reach (p : Pool) : Pool → Type 0 where
  here : Reach p p
  next : {q r : Pool} → Reach p q → Step q r → Reach p r
