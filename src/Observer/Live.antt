-- ===== src/Observer/Live.antt =====
-- The clients that are alive at a time. They live as storages do (`SameAsStorage`), so that the
-- sequences of their constructions and destructions are sequences of those of storages.
use statsig_cpp_core.Observer.Tables.{Functions}
use statsig_cpp_core.Prelude.{
  ℕ, zero, suc, ◌≡◌, refl, ap, some, some-injective, List, [], ◌∷◌, map, get_elem?, remove_at,
  subst, sym,
}
use statsig_cpp_core.Host.{World}
use statsig_cpp_core.Storage.{PersistentStorage}
use statsig_cpp_core.Storage.Live
use statsig_cpp_core.Storage.Live.{IsConsistent}
use statsig_cpp_core.Storage.Live.Reachable.{reachable-IsConsistent}
use statsig_cpp_core.Observer.{ObservabilityClient, construct, destroy}
use statsig_cpp_core.Storage.Live.Reachable
use statsig_cpp_core.Observer.Pool.{empty_slots}
use statsig_cpp_core.Observer.SameAsStorage.{as_create, as_storage, client-eq-storage}

pub record Process (U : Type 0) : Type 0 where
  pub world : World U
  pub live : List ObservabilityClient

abbrev pub as_process : {U : Type 0} → Process U → Live.Process U
as_process p = record { world = p.world; live = map as_storage p.live }

pub get_elem?-map :
    (live : List ObservabilityClient) (i : ℕ) (o : ObservabilityClient)
    → get_elem? live i ≡ some o
    → get_elem? (map as_storage live) i ≡ some (as_storage o)
get_elem?-map [] i o e = cc
get_elem?-map (a ∷ live) zero o e = ap (λ x. some (as_storage x)) (some-injective a o e)
get_elem?-map (a ∷ live) (suc i) o e = get_elem?-map live i o e

remove_at-map :
    (live : List ObservabilityClient) (i : ℕ)
    → remove_at i (map as_storage live) ≡ map as_storage (remove_at i live)
remove_at-map [] i = refl
remove_at-map (a ∷ live) zero = refl
remove_at-map (a ∷ live) (suc i) = ap (λ l. as_storage a ∷ l) (remove_at-map live i)

module _ {U : Type 0} where
  -- The start of the program: an empty pool, and no client.
  abbrev pub IsStart : Process U → Type 0
  IsStart p = (p.world.slots ≡ empty_slots) × (p.live ≡ [])

  pub data Step (p : Process U) : Process U → Type 0 where
    constructs :
        (create : Functions → ℕ) (c : ℕ)
        → Step p (record {
          world = (construct create c p.world).1;
          live = (construct create c p.world).0 ∷ p.live;
        })
    destroys :
        (i : ℕ) (o : ObservabilityClient)
        → get_elem? p.live i ≡ some o
        → Step p (record { world = destroy o p.world; live = remove_at i p.live })
    -- anything else that leaves the pool alone
    other : (w : World U) → w.slots ≡ p.world.slots → Step p (record p { world = w })

  pub data Reach (p : Process U) : Process U → Type 0 where
    here : Reach p p
    next : {q r : Process U} → Reach p q → Step q r → Reach p r

  process-eq :
      (w w' : World U) (l l' : List PersistentStorage)
      → w ≡ w'
      → l ≡ l'
      → Path (Live.Process U) (record { world = w; live = l }) (record { world = w'; live = l' })
  process-eq w w' l l' e f = rw (e, f) refl

  Step-as_process : {p q : Process U} → Step p q → Live.Step (as_process p) (as_process q)
  Step-as_process {p} (constructs create c) =
      let (same, state, _) = client-eq-storage create c p.world in
      subst (Live.Step (as_process p))
        (process-eq _ _ _ _ (sym state) (ap (λ s. s ∷ map as_storage p.live) (sym same)))
        (Live.Step.constructs (as_create create) c)
  Step-as_process {p} (destroys i o e) =
      let (_, _, gone) = client-eq-storage (λ fs. 0) 0 p.world in
      subst (Live.Step (as_process p)) (process-eq _ _ _ _ (sym (gone o)) (remove_at-map p.live i))
        (Live.Step.destroys i (as_storage o) (get_elem?-map p.live i o e))
  Step-as_process (other w e) = Live.Step.other w e

  pub Reach-as_process : {p q : Process U} → Reach p q → Live.Reach (as_process p) (as_process q)
  Reach-as_process here = Live.Reach.here
  Reach-as_process (next way step) = Live.Reach.next (Reach-as_process way) (Step-as_process step)

  pub as_process-IsStart : (p : Process U) → IsStart p → Reachable.IsStart (as_process p)
  as_process-IsStart p (slots, live) = (slots, ap (map as_storage) live)

  -- From an empty pool without clients, every sequence of constructions and destructions of
  -- observability clients is, with the clients read as storages, a sequence of those of persistent
  -- storages through the same states, so that the pool and the clients that are alive fit together
  -- as they do for storages.
  pub clients_refine_storages :
      (p q : Process U)
      → IsStart p
      → Reach p q
      → Live.Reach (as_process p) (as_process q)
        × IsConsistent q.world.slots (map as_storage q.live)
  clients_refine_storages p q begin way = (
    Reach-as_process way,
    reachable-IsConsistent (as_process p) (as_process q) (as_process-IsStart p begin)
        (Reach-as_process way),
  )
