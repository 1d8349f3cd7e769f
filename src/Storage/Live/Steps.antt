-- ===== src/Storage/Live/Steps.antt =====
-- Each construction and destruction keeps the pool and the living storages consistent.
use statsig_cpp_core.Prelude.{
  ℕ, zero, suc, ◌+◌, ◌<◌, ◌≡◌, ◌≢◌, refl, ap, sym, subst, ◌∙◌, Option, none, some, List, [], ◌∷◌,
  length, set, get_elem?, arith, length-set, get_elem?-set_self, get_elem?-set_ne, All, remove_at,
  All-at, All-map, All-map₂, All-remove_at, Pairwise-remove_at, Pairwise-others, some-injective,
}
use statsig_cpp_core.Json.{ℤ, pos, negsuc}
use statsig_cpp_core.Slots.{release_slot}
use statsig_cpp_core.Slots.Claim.{IsFree}
use statsig_cpp_core.Slots.Occupied.{occupied-fill, occupied-clear}
use statsig_cpp_core.Storage.{PersistentStorage}
use statsig_cpp_core.Storage.Outcome.{unregistered}
use statsig_cpp_core.Storage.Live.{
  OwnsAt, Owns, ApartSlots, Apart, has_slot, registered, IsConsistent,
}

OwnsAt-set :
    (slots : List (Option ℕ)) (k : ℕ) (c : Option ℕ) (s : PersistentStorage) (z : ℤ)
    → ((i : ℕ) → z ≡ pos i → k ≢ i)
    → OwnsAt slots s z
    → OwnsAt (set slots k c) s z
OwnsAt-set slots k c s (pos i) ne h = (get_elem?-set_ne slots k i c (ne i refl) ∙ h.0, h.1)
OwnsAt-set slots k c s (negsuc n) ne h = h

-- A slot that a storage owns is not free.
not-IsFree :
    (slots : List (Option ℕ)) (k : ℕ) (s : PersistentStorage) (z : ℤ)
    → IsFree slots k
    → OwnsAt slots s z
    → (i : ℕ) → z ≡ pos i
    → k ≢ i
not-IsFree slots k s (pos j) free h i e k_i = ground (arith, h.0)
not-IsFree slots k s (negsuc n) free h i e k_i = cc

pub ApartSlots-symm : (a b : ℤ) → ApartSlots a b → ApartSlots b a
ApartSlots-symm (pos i) (pos j) h = λ e. h (sym e)
ApartSlots-symm (pos i) (negsuc n) h = tt
ApartSlots-symm (negsuc n) (pos j) h = tt
ApartSlots-symm (negsuc n) (negsuc m) h = tt

ApartSlots-of_ne : (k : ℕ) (z : ℤ) → ((i : ℕ) → z ≡ pos i → k ≢ i) → ApartSlots (pos k) z
ApartSlots-of_ne k (pos i) h = h i refl
ApartSlots-of_ne k (negsuc n) h = tt

-- The slot of another storage.
pub ne_of_ApartSlots : (k : ℕ) (z : ℤ) → ApartSlots (pos k) z → (i : ℕ) → z ≡ pos i → k ≢ i
ne_of_ApartSlots k (pos j) h i e k_i = ground (arith, h)
ne_of_ApartSlots k (negsuc n) h i e k_i = cc

registered-remove_at :
    (live : List PersistentStorage) (i : ℕ) (s : PersistentStorage)
    → get_elem? live i ≡ some s
    → registered live ≡ has_slot s.slot + registered (remove_at i live)
registered-remove_at [] i s e = cc
registered-remove_at (t ∷ live) zero s e =
    ap (λ (u : PersistentStorage). has_slot u.slot + registered live) (some-injective t s e)
registered-remove_at (t ∷ live) (suc i) s e = omega (arith, registered-remove_at live i s e)

module _ (slots : List (Option ℕ)) (live : List PersistentStorage)
    (v : IsConsistent slots live) where
  pub unregistered-IsConsistent : (c : ℕ) → IsConsistent slots (unregistered c ∷ live)
  unregistered-IsConsistent c = record {
    size = v.size;
    owns = (refl, v.owns);
    apart = (All-map (Owns slots) (λ s. Unit) (λ s h. tt) live v.owns, v.apart);
    used = omega (arith, v.used);
  }

  pub granted-IsConsistent :
      (s : PersistentStorage) (k : ℕ)
      → s.slot ≡ pos k
      → s.ref ≢ 0
      → IsFree slots k
      → k < length slots
      → IsConsistent (set slots k (some s.callbacks)) (s ∷ live)
  granted-IsConsistent s k at ref free lt = record {
    size = length-set slots k (some s.callbacks) ∙ v.size;
    owns = (
      subst (OwnsAt (set slots k (some s.callbacks)) s) (sym at)
          (get_elem?-set_self slots k (some s.callbacks) lt, ref),
      All-map (Owns slots) (Owns (set slots k (some s.callbacks)))
          (λ t h.
            OwnsAt-set slots k (some s.callbacks) t t.slot (not-IsFree slots k t t.slot free h) h)
          live v.owns,
    );
    apart = (
      All-map (Owns slots) (Apart s)
          (λ t h.
            subst (λ z. ApartSlots z t.slot) (sym at)
              (ApartSlots-of_ne k t.slot (not-IsFree slots k t t.slot free h)))
          live v.owns,
      v.apart,
    );
    used = rw at (omega (arith, v.used, occupied-fill slots k s.callbacks free));
  }

  released-IsConsistent :
      (i : ℕ) (s : PersistentStorage) (z : ℤ)
      → s.slot ≡ z
      → OwnsAt slots s z
      → All (Apart s) (remove_at i live)
      → registered live ≡ has_slot z + registered (remove_at i live)
      → IsConsistent (release_slot slots z) (remove_at i live)
  unfolding release_slot
  released-IsConsistent i s (negsuc n) at own others count = record {
    size = v.size;
    owns = All-remove_at (Owns slots) live i v.owns;
    apart = Pairwise-remove_at Apart live i v.apart;
    used = omega (arith, v.used, count);
  }
  released-IsConsistent i s (pos k) at own others count = record {
    size = length-set slots k none ∙ v.size;
    owns =
        All-map₂ (Owns slots) (Apart s) (Owns (set slots k none))
          (λ t h a.
            OwnsAt-set slots k none t t.slot
              (ne_of_ApartSlots k t.slot (subst (λ z. ApartSlots z t.slot) at a)) h)
          (remove_at i live) (All-remove_at (Owns slots) live i v.owns) others;
    apart = Pairwise-remove_at Apart live i v.apart;
    used = omega (arith, v.used, count, occupied-clear slots k s.callbacks own.0);
  }

  pub destroyed-IsConsistent :
      (i : ℕ) (s : PersistentStorage)
      → get_elem? live i ≡ some s
      → IsConsistent (release_slot slots s.slot) (remove_at i live)
  destroyed-IsConsistent i s e =
      released-IsConsistent i s s.slot refl (All-at (Owns slots) live i s e v.owns)
        (Pairwise-others Apart (λ t u. ApartSlots-symm t.slot u.slot) live i s e v.apart)
        (registered-remove_at live i s e)
