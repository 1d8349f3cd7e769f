-- ===== src/Storage/Sharing/Safety.antt =====
-- When callbacks are freed.
use statsig_cpp_core.Prelude.{
  ℕ, zero, suc, ◌≤◌, ◌<◌, ◌≡◌, refl, ap, ◌∙◌, none, some, List, [], ◌∷◌, replicate, get_elem?,
  remove_at, count, one, count-remove_at, ◌==◌, if◌then◌else◌, arith,
}
use native.Mathlib.Decide.{dec_lt}
use statsig_cpp_core.Slots.{max_slots, empty_slots}
use statsig_cpp_core.Storage.Sharing.{
  Pool, drop, end_members, leave, ends, leaves, Reach, here, next,
}
use statsig_cpp_core.Storage.Sharing.Counts.{in_slots, in_storages, uses}
use statsig_cpp_core.Storage.Sharing.Pointers.{IsBalanced}
use statsig_cpp_core.Storage.Sharing.Balance.{Reach-IsBalanced}

-- The start of the program.
abbrev pub start : Pool
start = record {
  slots = empty_slots;
  storages = [];
  ending = [];
  flights = [];
  counts = λ c. 0;
  freed = [];
  freed_locked = [];
  next = 0;
}

pub in_slots-replicate : (c n : ℕ) → in_slots c (replicate n none) ≡ 0
in_slots-replicate c zero = refl
in_slots-replicate c (suc n) = omega (arith, in_slots-replicate c n)

start-IsBalanced : (c : ℕ) → IsBalanced c 0 start
start-IsBalanced c = record {
  refs = omega (arith, in_slots-replicate c max_slots);
  gone = λ lt. absurd (omega (arith, lt));
  fresh = λ le. (refl, refl);
}

pub reachable-IsBalanced : (q : Pool) (c : ℕ) → Reach start q → IsBalanced c 0 q
reachable-IsBalanced q c way = Reach-IsBalanced c (start-IsBalanced c) way

count-get_elem? : (xs : List ℕ) (i c : ℕ) → get_elem? xs i ≡ some c → 1 ≤ count c xs
count-get_elem? xs i c e =
    let f : one c c ≡ 1 = ground arith in omega (arith, count-remove_at c xs i c e, f)

IsBalanced-allocated : (q : Pool) (c : ℕ) → IsBalanced c 0 q → 1 ≤ uses c q → c < q.next
IsBalanced-allocated q c h used = elim (dec_lt c q.next) [
  | yes lt ↦ lt
  | no le ↦ absurd (omega (arith, h.refs, (h.fresh (omega (arith, le))).0, used))
]

-- However the constructions and destructions of storages and the starts and ends of dispatches
-- interleave, the callbacks that a running dispatch holds have a reference count of at least 1 and
-- have not been freed, also when their storage is destroyed while the dispatch runs.
pub flights_alive :
    (q : Pool) (i c : ℕ)
    → Reach start q
    → get_elem? q.flights i ≡ some c
    → (1 ≤ q.counts c) × (count c q.freed ≡ 0)
flights_alive q i c way e =
    let h = reachable-IsBalanced q c way in
    let held = count-get_elem? q.flights i c e in
    let lt = IsBalanced-allocated q c h (omega (arith, held)) in
    (omega (arith, h.refs, held), ground (arith, h.refs, held, h.gone lt))

pub freed_iff_unused :
    (q : Pool) (c : ℕ)
    → Reach start q
    → c < q.next
    → count c q.freed ≡ (if uses c q == 0 then 1 else 0)
freed_iff_unused q c way lt =
    let h = reachable-IsBalanced q c way in ground (arith, h.refs, h.gone lt)

-- The dispatches that run end, one after the other, and the members of storages.
abbrev drain : List ℕ → Pool → Pool
drain [] q = q
drain (c ∷ rest) q = drain rest (leave 0 c q)

abbrev drain_ending : List ℕ → Pool → Pool
drain_ending [] q = q
drain_ending (c ∷ rest) q = drain_ending rest (end_members 0 c q)

-- What both leave as it is.
abbrev Onwards : Pool → Pool → Type 0
Onwards q r = Reach q r × (r.slots ≡ q.slots) × (r.storages ≡ q.storages) × (r.next ≡ q.next)

Reach-trans : {p q r : Pool} → Reach p q → Reach q r → Reach p r
Reach-trans way here = way
Reach-trans way (next other step) = next (Reach-trans way other) step

drain-Onwards :
    (flights : List ℕ) (q : Pool)
    → q.flights ≡ flights
    → Onwards q (drain flights q)
      × ((drain flights q).flights ≡ [])
      × ((drain flights q).ending ≡ q.ending)
unfolding leave drop
drain-Onwards [] q e = ((here, refl, refl, refl), e, refl)
drain-Onwards (c ∷ rest) q e =
    let ((way, slots, storages, next_), empty, ending) =
      drain-Onwards rest (leave 0 c q) (ap (remove_at 0) e) in
    (
      (
        Reach-trans (next here (leaves 0 c (ap (λ l. get_elem? l 0) e))) way,
        slots,
        storages,
        next_,
      ),
      empty,
      ending,
    )

drain_ending-Onwards :
    (ending : List ℕ) (q : Pool)
    → q.ending ≡ ending
    → Onwards q (drain_ending ending q)
      × ((drain_ending ending q).ending ≡ [])
      × ((drain_ending ending q).flights ≡ q.flights)
unfolding end_members drop
drain_ending-Onwards [] q e = ((here, refl, refl, refl), e, refl)
drain_ending-Onwards (c ∷ rest) q e =
    let ((way, slots, storages, next_), empty, flights) =
      drain_ending-Onwards rest (end_members 0 c q) (ap (remove_at 0) e) in
    (
      (Reach-trans (next here (ends 0 c (ap (λ l. get_elem? l 0) e))) way, slots, storages, next_),
      empty,
      flights,
    )

pub freed_after_drain :
    (q : Pool) (c : ℕ)
    → Reach start q
    → c < q.next
    → in_storages c q.storages ≡ 0
    → in_slots c q.slots ≡ 0
    → (r : Pool) × Reach q r
      × (r.flights ≡ [])
      × (r.ending ≡ [])
      × (r.storages ≡ q.storages)
      × (count c r.freed ≡ 1)
freed_after_drain q c way lt no_storage no_slot =
    let m : Pool = drain q.flights q in
    let r : Pool = drain_ending m.ending m in
    let ((on, slots, storages, next_), empty, _) = drain-Onwards q.flights q refl in
    let ((on', slots', storages', next'), ended, flights) = drain_ending-Onwards m.ending m refl in
    let all : Reach q r = Reach-trans on on' in
    (
      r,
      all,
      flights ∙ empty,
      ended,
      storages' ∙ storages,
      (freed_iff_unused r c (Reach-trans way all) (rw (next', next_) lt)
          ∙ rw (flights, empty, ended, slots', slots, storages', storages, no_slot, no_storage)
              refl),
    )
