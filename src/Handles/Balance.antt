-- ===== src/Handles/Balance.antt =====
-- What becomes of each ref.
use statsig_cpp_core.Prelude.{
  ℕ, zero, suc, ◌+◌, ◌≡◌, ◌≢◌, refl, some, some-injective, List, [], ◌∷◌, set, get_elem?, count,
  one, count-cons, count-remove_at, arith, ap,
}
use statsig_cpp_core.Handles.{
  Handles, construct, release, destroy, copy_construct, copy_assign, Step, constructs, destroys,
  copies, assigns, Spares, Reach, here, next, no_handles,
}

count-set :
    (n : ℕ) (xs : List ℕ) (i x y : ℕ)
    → get_elem? xs i ≡ some x
    → count n (set xs i y) + one n x ≡ count n xs + one n y
count-set n [] i x y e = cc
count-set n (z ∷ xs) zero x y e =
    omega (arith, count-cons n z xs, count-cons n y xs, ap (one n) (some-injective z x e))
count-set n (z ∷ xs) (suc i) x y e =
    omega (arith, count-cons n z xs, count-cons n z (set xs i y), count-set n xs i x y e)

one-ne : (r x : ℕ) → x ≢ r → one r x ≡ 0
one-ne r x n = ground arith

module _ (r : ℕ) (nonzero : r ≢ 0) where
  IsBalanced : Handles → Type 0
  IsBalanced p = (count 0 p.released ≡ 0) × (count r p.live + count r p.released ≡ count r p.issued)

  destroy-IsBalanced :
      (i ref : ℕ) (p : Handles)
      → get_elem? p.live i ≡ some ref
      → IsBalanced p
      → IsBalanced (destroy i ref p)
  unfolding IsBalanced destroy release
  destroy-IsBalanced i ref p e (zeros, h) =
      (ground (arith, zeros), ground (arith, h, count-remove_at r p.live i ref e))

  Step-IsBalanced : {p q : Handles} (step : Step p q) → Spares r step → IsBalanced p → IsBalanced q
  unfolding IsBalanced construct copy_construct copy_assign
  Step-IsBalanced {p = p} (constructs ref) spared (zeros, h) =
      (zeros, omega (arith, h, count-cons r ref p.live, count-cons r ref p.issued))
  Step-IsBalanced {p = p} (destroys i ref e) spared h = destroy-IsBalanced i ref p e h
  Step-IsBalanced {p = p} (copies j ref e) spared (zeros, h) =
      (zeros, omega (arith, h, count-cons r ref p.live, one-ne r ref spared))
  Step-IsBalanced {p = p} (assigns i j old ref e f) (other, spared) (zeros, h) = (
    zeros,
    omega (arith, h, count-set r p.live i old ref e, one-ne r old other, one-ne r ref spared),
  )

  Reach-IsBalanced : {p q : Handles} → IsBalanced p → Reach r p q → IsBalanced q
  Reach-IsBalanced h here = h
  Reach-IsBalanced h (next way step spared) = Step-IsBalanced step spared (Reach-IsBalanced h way)

-- After any sequence of constructions, implicit copies, implicit assignments and destructions of
-- handles of users or options: each ref other than 0 that no copy and no assignment of the
-- sequence reads or overwrites has been issued as often as it is held by a living handle or has
-- been released, taken together; and the ref 0 has not been released.
pub uncopied_released_once :
    (p : Handles) (r : ℕ)
    → Reach r no_handles p
    → r ≢ 0
    → (count 0 p.released ≡ 0) × (count r p.live + count r p.released ≡ count r p.issued)
unfolding IsBalanced
uncopied_released_once p r way nonzero = Reach-IsBalanced r nonzero (refl, refl) way

-- A handle of a user or of options with a ref other than 0, its copy, and the end of both release
-- the ref twice, in every state.
pub copy_released_twice :
    (p : Handles) (ref : ℕ)
    → ref ≢ 0
    → count ref (destroy 0 ref (destroy 0 ref (copy_construct ref (construct ref p)))).released
      ≡ 2 + count ref p.released
unfolding construct copy_construct destroy release
copy_released_twice p ref nonzero = ground arith
