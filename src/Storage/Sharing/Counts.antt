-- ===== src/Storage/Sharing/Counts.antt =====
-- How many pointers to callbacks there are.
use statsig_cpp_core.Prelude.{
  ℕ, zero, suc, ◌+◌, ◌≡◌, ap, Option, none, some, some-injective, List, [], ◌∷◌, set, get_elem?,
  remove_at, count, one, arith,
}
use statsig_cpp_core.Storage.Sharing.{Holder, Pool}

-- How often an address is in a slot, in the slots, and in the storages.
abbrev pub in_slot : ℕ → Option ℕ → ℕ
in_slot c none = 0
in_slot c (some d) = one c d

abbrev pub in_slots : ℕ → List (Option ℕ) → ℕ
in_slots c [] = 0
in_slots c (o ∷ slots) = in_slot c o + in_slots c slots

abbrev pub in_storages : ℕ → List Holder → ℕ
in_storages c [] = 0
in_storages c (s ∷ storages) = one c s.callbacks + in_storages c storages

-- The pointers to `c`: those in slots, in storages, also in ending ones, and in dispatches.
abbrev pub uses : ℕ → Pool → ℕ
uses c p = in_slots c p.slots + in_storages c p.storages + count c p.ending + count c p.flights

pub in_slots-set :
    (c : ℕ) (slots : List (Option ℕ)) (k : ℕ) (o new : Option ℕ)
    → get_elem? slots k ≡ some o
    → in_slots c (set slots k new) + in_slot c o ≡ in_slots c slots + in_slot c new
in_slots-set c [] k o new e = cc
in_slots-set c (a ∷ slots) zero o new e = omega (arith, ap (in_slot c) (some-injective a o e))
in_slots-set c (a ∷ slots) (suc k) o new e = omega (arith, in_slots-set c slots k o new e)

pub in_storages-remove_at :
    (c : ℕ) (storages : List Holder) (i : ℕ) (s : Holder)
    → get_elem? storages i ≡ some s
    → in_storages c (remove_at i storages) + one c s.callbacks ≡ in_storages c storages
in_storages-remove_at c [] i s e = cc
in_storages-remove_at c (t ∷ storages) zero s e =
    omega (arith, ap (λ (u : Holder). one c u.callbacks) (some-injective t s e))
in_storages-remove_at c (t ∷ storages) (suc i) s e =
    omega (arith, in_storages-remove_at c storages i s e)
