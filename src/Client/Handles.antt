-- ===== src/Client/Handles.antt =====
-- The ref that a `Statsig` holds, under construction, moves, assignments and destruction. `live`
-- are the objects at their addresses, and a ref of 0 is none.
pub mod Balance
use statsig_cpp_core.Prelude.{
  ℕ, String, ◌≡◌, Option, none, some, List, ◌∷◌, set, get_elem?, remove_at, ◌==◌, if◌then◌else◌,
}

pub record Statsig : Type 0 where
  pub ref : ℕ
  pub sdk_key : String

-- `issued` and `released` are the results of `statsig_create` and the arguments of
-- `statsig_release`, newest first.
pub record Clients : Type 0 where
  pub live : List Statsig
  pub issued : List ℕ
  pub released : List ℕ

-- `statsig_release` unless the ref is 0.
unfoldable pub release : ℕ → Clients → Clients
release ref p = if ref == 0 then p else record p { released = ref ∷ p.released }

-- Both constructors: `ref` is what `statsig_create` returns for the key and the options.
unfoldable pub construct : String → ℕ → Clients → Clients
construct sdk_key ref p = record p {
  live = record { ref = ref; sdk_key = sdk_key } ∷ p.live;
  issued = ref ∷ p.issued;
}

pub destroy : ℕ → Statsig → Clients → Clients
unfolding release
destroy i this p = let p' : Clients = release this.ref p in record p' { live = remove_at i p'.live }

-- `left` is what the move leaves of the other's key.
pub move_construct : ℕ → Statsig → String → Clients → Clients
move_construct j other left p = record p {
  live =
      record { ref = other.ref; sdk_key = other.sdk_key }
      ∷ set p.live j (record { ref = 0; sdk_key = left });
}

-- `this` is the object at `i`, and `other` the one at `j`.
unfoldable pub move_assign : ℕ → Statsig → ℕ → Statsig → String → Clients → Clients
unfolding release
move_assign i this j other left p =
    let p' : Clients = release this.ref p in
    if i == j then p else record p' {
      live =
          set (set p'.live i (record { ref = other.ref; sdk_key = other.sdk_key })) j
            (record { ref = 0; sdk_key = left });
    }

pub copy_assign : ℕ → Statsig → ℕ → Statsig → Clients → Clients
unfolding release
copy_assign i this j other p =
    let p' : Clients = release this.ref p in
    if i == j
    then p
    else record p' { live = set p'.live i (record { ref = 0; sdk_key = other.sdk_key }) }

-- What can happen to the objects of the class. Its copy constructor, which is declared and defined
-- nowhere, is no step.
pub data Step (p : Clients) : Clients → Type 0 where
  constructs : (sdk_key : String) (ref : ℕ) → Step p (construct sdk_key ref p)
  destroys : (i : ℕ) (this : Statsig) → get_elem? p.live i ≡ some this → Step p (destroy i this p)
  move_constructs :
      (j : ℕ) (other : Statsig) (left : String)
      → get_elem? p.live j ≡ some other
      → Step p (move_construct j other left p)
  move_assigns :
      (i j : ℕ) (this other : Statsig) (left : String)
      → get_elem? p.live i ≡ some this
      → get_elem? p.live j ≡ some other
      → Step p (move_assign i this j other left p)
  copy_assigns :
      (i j : ℕ) (this other : Statsig)
      → get_elem? p.live i ≡ some this
      → get_elem? p.live j ≡ some other
      → Step p (copy_assign i this j other p)

pub data Reach (p : Clients) : Clients → Type 0 where
  here : Reach p p
  next : {q r : Clients} → Reach p q → Step q r → Reach p r
