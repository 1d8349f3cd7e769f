-- ===== src/Client/Handles/Balance.antt =====
-- Every ref is released once.
use statsig_cpp_core.Prelude.{
  ℕ, zero, suc, ◌+◌, ◌≤◌, String, ◌≡◌, ◌≢◌, refl, inl, inr, Bool-cases, some, some-injective, List,
  [], ◌∷◌, set, get_elem?, get_elem?-set_ne, remove_at, count, one, count-cons, ◌==◌, arith, ap,
  ◌∙◌,
}
use statsig_cpp_core.Client.Handles.{
  Statsig, Clients, release, construct, destroy, move_construct, move_assign, copy_assign, Step,
  constructs, destroys, move_constructs, move_assigns, copy_assigns, Reach, here, next,
}

-- How many of the objects hold a ref.
abbrev pub holders : ℕ → List Statsig → ℕ
holders r [] = 0
holders r (s ∷ live) = one r s.ref + holders r live

holders-set :
    (r : ℕ) (live : List Statsig) (i : ℕ) (s t : Statsig)
    → get_elem? live i ≡ some s
    → holders r (set live i t) + one r s.ref ≡ holders r live + one r t.ref
holders-set r [] i s t e = cc
holders-set r (u ∷ live) zero s t e =
    let f : one r u.ref ≡ one r s.ref = ap (λ x. one r x.ref) (some-injective u s e) in
    omega (arith, f)
holders-set r (u ∷ live) (suc i) s t e = omega (arith, holders-set r live i s t e)

holders-remove_at :
    (r : ℕ) (live : List Statsig) (i : ℕ) (s : Statsig)
    → get_elem? live i ≡ some s
    → holders r (remove_at i live) + one r s.ref ≡ holders r live
holders-remove_at r [] i s e = cc
holders-remove_at r (u ∷ live) zero s e =
    let f : one r u.ref ≡ one r s.ref = ap (λ x. one r x.ref) (some-injective u s e) in
    omega (arith, f)
holders-remove_at r (u ∷ live) (suc i) s e = omega (arith, holders-remove_at r live i s e)

module _ (r : ℕ) (pos : r ≢ 0) where
  abbrev Balanced : Clients → Type 0
  Balanced p = holders r p.live + count r p.released ≡ count r p.issued

  one-zero : one r 0 ≡ 0
  one-zero = ground arith

  released-release :
      (x : ℕ) (p : Clients) → count r (release x p).released ≡ one r x + count r p.released
  unfolding release
  released-release x p = ground arith

  construct-Balanced :
      (key : String) (ref : ℕ) (p : Clients) → Balanced p → Balanced (construct key ref p)
  unfolding construct
  construct-Balanced key ref p h = omega (arith, h, count-cons r ref p.issued)

  destroy-Balanced :
      (i : ℕ) (s : Statsig) (p : Clients)
      → get_elem? p.live i ≡ some s
      → Balanced p
      → Balanced (destroy i s p)
  unfolding destroy release
  destroy-Balanced i s p e h =
      ground (arith, holders-remove_at r p.live i s e, released-release s.ref p, h)

  move_construct-Balanced :
      (j : ℕ) (s : Statsig) (left : String) (p : Clients)
      → get_elem? p.live j ≡ some s
      → Balanced p
      → Balanced (move_construct j s left p)
  unfolding move_construct
  move_construct-Balanced j s left p e h =
      omega (arith, holders-set r p.live j s (record { ref = 0; sdk_key = left }) e, one-zero, h)

  -- The objects after a move from one address to another.
  holders-move :
      (i j : ℕ) (s t u v : Statsig) (live : List Statsig)
      → i ≢ j
      → get_elem? live i ≡ some s
      → get_elem? live j ≡ some t
      → u.ref ≡ t.ref
      → v.ref ≡ 0
      → holders r (set (set live i u) j v) + one r s.ref ≡ holders r live
  holders-move i j s t u v live ne es et eu ev = omega (
    arith,
    holders-set r live i s u es,
    holders-set r (set live i u) j t v (get_elem?-set_ne live i j u ne ∙ et),
    ap (one r) eu,
    ap (one r) ev ∙ one-zero,
  )

  move_assign-Balanced :
      (i j : ℕ) (s t : Statsig) (left : String) (p : Clients)
      → get_elem? p.live i ≡ some s
      → get_elem? p.live j ≡ some t
      → Balanced p
      → Balanced (move_assign i s j t left p)
  unfolding move_assign release
  move_assign-Balanced i j s t left p es et h = elim (Bool-cases (i == j)) [
    | inl same ↦ rw same h
    | inr other ↦ rw other (
        ground (
          arith,
          holders-move i j s t (record { ref = t.ref; sdk_key = t.sdk_key })
              (record { ref = 0; sdk_key = left }) p.live (ground arith) es et refl refl,
          h,
        ))
  ]

  copy_assign-Balanced :
      (i j : ℕ) (s t : Statsig) (p : Clients)
      → get_elem? p.live i ≡ some s
      → Balanced p
      → Balanced (copy_assign i s j t p)
  unfolding copy_assign release
  copy_assign-Balanced i j s t p es h = elim (Bool-cases (i == j)) [
    | inl same ↦ rw same h
    | inr other ↦ rw other (
        ground (
          arith,
          holders-set r p.live i s (record { ref = 0; sdk_key = t.sdk_key }) es,
          one-zero,
          h,
        ))
  ]

  Step-Balanced : {p q : Clients} → Step p q → Balanced p → Balanced q
  Step-Balanced {p = p} (constructs key ref) h = construct-Balanced key ref p h
  Step-Balanced {p = p} (destroys i s e) h = destroy-Balanced i s p e h
  Step-Balanced {p = p} (move_constructs j s left e) h = move_construct-Balanced j s left p e h
  Step-Balanced {p = p} (move_assigns i j s t left es et) h =
      move_assign-Balanced i j s t left p es et h
  Step-Balanced {p = p} (copy_assigns i j s t es et) h = copy_assign-Balanced i j s t p es h

  Reach-Balanced : {p q : Clients} → Balanced p → Reach p q → Balanced q
  Reach-Balanced h here = h
  Reach-Balanced h (next way step) = Step-Balanced step (Reach-Balanced h way)

abbrev pub no_clients : Clients
no_clients = record { live = []; issued = []; released = [] }

-- After any sequence of constructions, moves, assignments (also of an object to itself) and
-- destructions of clients, each ref other than 0 has been issued as often as it is held by a
-- living object or has been released: none leaks.
pub refs_balance :
    (p : Clients) (r : ℕ)
    → Reach no_clients p
    → r ≢ 0
    → holders r p.live + count r p.released ≡ count r p.issued
refs_balance p r way pos = Reach-Balanced r pos refl way

-- If the native library issues a ref other than 0 at most once, then after any sequence of
-- constructions, moves, assignments and destructions of clients the living objects that hold it
-- and its releases are at most one together: it is not released twice, and not while an object
-- holds it.
pub refs_released_once :
    (p : Clients) (r : ℕ)
    → Reach no_clients p
    → r ≢ 0
    → count r p.issued ≤ 1
    → holders r p.live + count r p.released ≤ 1
refs_released_once p r way pos once = omega (arith, refs_balance p r way pos, once)

-- If the native library issues the ref of a living client object at most once and it is not 0,
-- then after any sequence of constructions, moves, assignments and destructions of clients, this
-- ref, which the methods of the object pass on, has been issued and not been released, and no
-- other living object holds it.
pub ref_in_use :
    (p : Clients) (i : ℕ) (s : Statsig)
    → Reach no_clients p
    → get_elem? p.live i ≡ some s
    → s.ref ≢ 0
    → count s.ref p.issued ≤ 1
    → (count s.ref p.issued ≡ 1)
      × (count s.ref p.released ≡ 0)
      × (holders s.ref (remove_at i p.live) ≡ 0)
ref_in_use p i s way e pos once =
    let balance = refs_balance p s.ref way pos in
    let held = holders-remove_at s.ref p.live i s e in
    let self : one s.ref s.ref ≡ 1 = ground arith in
    (
      omega (arith, balance, held, self, once),
      omega (arith, balance, held, self, once),
      omega (arith, balance, held, self, once),
    )
