-- ===== src/Storage/Live.antt =====
-- The storages that are alive at a time, under any sequence of constructions and destructions.
pub mod Steps
pub mod Reachable
use statsig_cpp_core.Prelude.{
  ℕ, zero, suc, ◌+◌, ◌≤◌, ◌<◌, ◌≡◌, ◌≢◌, refl, ap, sym, subst, ◌∙◌, inl, inr, Option, none, some,
  List, [], ◌∷◌, length, set, get_elem?, arith, length-set, get_elem?-set_self, get_elem?-set_ne,
  length-replicate, All, Pairwise, remove_at, All-at, All-map, All-remove_at, Pairwise-remove_at,
  Pairwise-others, some-injective,
}
use statsig_cpp_core.Storage.Tables.{Functions}
use statsig_cpp_core.Json.{ℤ, pos, negsuc}
use statsig_cpp_core.Slots.{max_slots, empty_slots, load_callbacks, release_slot}
use statsig_cpp_core.Slots.Claim.{IsFree}
use statsig_cpp_core.Slots.Occupied.{
  occupied, occupied-le-length, occupied-fill, occupied-clear, occupied-empty,
}
use statsig_cpp_core.Host.{World, exhausted, not_registered, created}
use statsig_cpp_core.Storage.{PersistentStorage, construct, destroy}
use statsig_cpp_core.Storage.Outcome.{
  unregistered, Outcome, no_slot, refused, granted, construct-Outcome,
}

-- The process: the state, and the storages that are alive, the newest first.
pub record Process (U : Type 0) : Type 0 where
  pub world : World U
  pub live : List PersistentStorage

abbrev pub OwnsAt : List (Option ℕ) → PersistentStorage → ℤ → Type 0
OwnsAt slots s (pos i) = (get_elem? slots i ≡ some (some s.callbacks)) × (s.ref ≢ 0)
OwnsAt slots s (negsuc n) = s.ref ≡ 0

-- A storage with a slot has its callbacks there and a ref; one without has the ref 0.
abbrev pub Owns : List (Option ℕ) → PersistentStorage → Type 0
Owns slots s = OwnsAt slots s s.slot

abbrev pub ApartSlots : ℤ → ℤ → Type 0
ApartSlots (pos i) (pos j) = i ≢ j
ApartSlots _ _ = Unit

-- Two storages with slots have different ones.
abbrev pub Apart : PersistentStorage → PersistentStorage → Type 0
Apart s t = ApartSlots s.slot t.slot

abbrev pub has_slot : ℤ → ℕ
has_slot (pos i) = 1
has_slot (negsuc n) = 0

-- How many storages have a slot.
abbrev pub registered : List PersistentStorage → ℕ
registered [] = 0
registered (s ∷ live) = has_slot s.slot + registered live

-- The pool and the storages that are alive fit together.
pub record IsConsistent (slots : List (Option ℕ)) (live : List PersistentStorage) : Type 0 where
  pub size : length slots ≡ max_slots
  pub owns : All (Owns slots) live
  pub apart : Pairwise Apart live
  pub used : occupied slots ≡ registered live

module _ {U : Type 0} where
  pub data Step (p : Process U) : Process U → Type 0 where
    -- a construction, with what the native side answers
    constructs :
        (create : Functions → ℕ) (c : ℕ)
        → Step p (record {
          world = (construct create c p.world).1;
          live = (construct create c p.world).0 ∷ p.live;
        })
    -- a destruction of any storage that is alive
    destroys :
        (i : ℕ) (s : PersistentStorage)
        → get_elem? p.live i ≡ some s
        → Step p (record { world = destroy s p.world; live = remove_at i p.live })
    -- anything else that leaves the pool alone
    other : (w : World U) → w.slots ≡ p.world.slots → Step p (record p { world = w })

  pub data Reach (p : Process U) : Process U → Type 0 where
    here : Reach p p
    next : {q r : Process U} → Reach p q → Step q r → Reach p r
