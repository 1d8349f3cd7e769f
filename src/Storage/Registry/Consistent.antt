-- ===== src/Storage/Registry/Consistent.antt =====
-- What every interleaving of constructions and destructions keeps of the pool, the storages and
-- the registry of the native side.
use statsig_cpp_core.Prelude.{
  ℕ, ◌≡◌, ◌≢◌, sym, ◌∙◌, inl, inr, Option, none, some, some-injective, length, get_elem?, List,
  arith, ◌==◌, subst, Bool-cases, ◌⊎◌,
}
use statsig_cpp_core.Json.{pos}
use statsig_cpp_core.Slots.{max_slots}
use statsig_cpp_core.Storage.Tables.{Functions, functions}
use statsig_cpp_core.Storage.Registry.{Phase, Object, update}

module _ (slots : List (Option ℕ)) (objects : ℕ → Option Object)
    (entries : ℕ → Option Functions) where
  -- A storage that has a slot, in whichever phase, has its callbacks there, and alone; the native
  -- side has an entry for it as long as its ref is not 0; and each entry is of a storage.
  pub record IsConsistent : Type 0 where
    pub size : length slots ≡ max_slots
    pub owns :
        (i k : ℕ) (o : Object)
        → objects i ≡ some o
        → o.storage.slot ≡ pos k
        → get_elem? slots k ≡ some (some o.storage.callbacks)
    pub apart :
        (i j k : ℕ) (o p : Object)
        → objects i ≡ some o
        → objects j ≡ some p
        → o.storage.slot ≡ pos k
        → p.storage.slot ≡ pos k
        → i ≡ j
    pub idle : (i : ℕ) (o : Object) → objects i ≡ some o → o.phase ≢ Phase.alive → o.storage.ref ≡ 0
    pub enrolled :
        (i : ℕ) (o : Object)
        → objects i ≡ some o
        → o.storage.ref ≢ 0
        → (k : ℕ) × (o.storage.slot ≡ pos k) × (entries o.storage.ref ≡ some (functions k))
    pub owned :
        (ref k : ℕ)
        → entries ref ≡ some (functions k)
        → (i : ℕ) × (o : Object) × (objects i ≡ some o)
          × (o.storage.ref ≡ ref)
          × (o.storage.slot ≡ pos k)
          × (ref ≢ 0)

pub update_cases :
    {A : Type 0} (i j : ℕ) (x : Option A) (f : ℕ → Option A) (a : A)
    → update i x f j ≡ some a
    → ((j ≡ i) × (x ≡ some a)) ⊎ ((j ≢ i) × (f j ≡ some a))
update_cases i j x f a h = elim (Bool-cases (j == i)) [
  | inl e ↦ inl (ground arith, rw e at h)
  | inr e ↦ inr (ground arith, rw e at h)
]

pub update_other : {A : Type 0} (i j : ℕ) (x : A) (f : ℕ → A) → j ≢ i → update i x f j ≡ f j
update_other i j x f n = ground arith

pub update_self : {A : Type 0} (i : ℕ) (x : A) (f : ℕ → A) → update i x f i ≡ x
update_self i x f = ground arith

-- A property of the storage of a thread, if it has one.
abbrev pub Each : (Object → Type 0) → Option Object → Type 0
Each P none = Unit
Each P (some o) = P o

pub Each-at : (P : Object → Type 0) (x : Option Object) (o : Object) → x ≡ some o → Each P x → P o
Each-at P none o e h = cc
Each-at P (some q) o e h = subst P (some-injective q o e) h

-- Of the storage of thread `i` after a step of it.
module _ (slots : List (Option ℕ)) (objects : ℕ → Option Object) (entries : ℕ → Option Functions)
    (i : ℕ) where
  pub record Fits (o : Object) : Type 0 where
    pub own : (k : ℕ) → o.storage.slot ≡ pos k → get_elem? slots k ≡ some (some o.storage.callbacks)
    pub alone :
        (j k : ℕ) (p : Object)
        → j ≢ i
        → objects j ≡ some p
        → p.storage.slot ≡ pos k
        → o.storage.slot ≢ pos k
    pub idle : o.phase ≢ Phase.alive → o.storage.ref ≡ 0
    pub enrolled :
        o.storage.ref ≢ 0
        → (k : ℕ) × (o.storage.slot ≡ pos k) × (entries o.storage.ref ≡ some (functions k))

-- What a step of thread `i` must see to, so that the rest stays consistent: its storage is `x`
-- before the step and `y` after it.
module _ (slots slots' : List (Option ℕ)) (objects : ℕ → Option Object)
    (entries entries' : ℕ → Option Functions) (i : ℕ) (x y : Option Object) where
  pub record Keeps : Type 0 where
    pub size : length slots' ≡ max_slots
    pub fits : Each (Fits slots' objects entries' i) y
    pub slots_kept :
        (j k : ℕ) (o : Object)
        → j ≢ i
        → objects j ≡ some o
        → o.storage.slot ≡ pos k
        → get_elem? slots' k ≡ get_elem? slots k
    pub entries_kept :
        (j : ℕ) (o : Object)
        → j ≢ i
        → objects j ≡ some o
        → o.storage.ref ≢ 0
        → entries' o.storage.ref ≡ entries o.storage.ref
    pub owned :
        (ref k : ℕ)
        → entries' ref ≡ some (functions k)
        → ((o : Object) × (y ≡ some o)
            × (o.storage.ref ≡ ref)
            × (o.storage.slot ≡ pos k)
            × (ref ≢ 0))
          ⊎ ((entries ref ≡ some (functions k)) × Each (λ o. o.storage.ref ≢ ref) x)

  pub Keeps-IsConsistent :
      IsConsistent slots objects entries
      → objects i ≡ x
      → Keeps
      → IsConsistent slots' (update i y objects) entries'
  Keeps-IsConsistent v old c = record {
    size = c.size;
    owns = λ j k o h at. elim (update_cases i j y objects o h) [
      | inl (same, e) ↦ (Each-at (Fits slots' objects entries' i) y o e c.fits).own k at
      | inr (n, e) ↦ c.slots_kept j k o n e at ∙ v.owns j k o e at
    ];
    apart = λ j j' k o p h h' at at'. elim (update_cases i j y objects o h) [
      | inl (same, e) ↦ elim (update_cases i j' y objects p h') [
        | inl (same', e') ↦ same ∙ sym same'
        | inr (n, e') ↦
            absurd
              ((Each-at (Fits slots' objects entries' i) y o e c.fits).alone j' k p n e' at' at)
      ]
      | inr (n, e) ↦ elim (update_cases i j' y objects p h') [
        | inl (same', e') ↦
            absurd ((Each-at (Fits slots' objects entries' i) y p e' c.fits).alone j k o n e at at')
        | inr (n', e') ↦ v.apart j j' k o p e e' at at'
      ]
    ];
    idle = λ j o h n. elim (update_cases i j y objects o h) [
      | inl (same, e) ↦ (Each-at (Fits slots' objects entries' i) y o e c.fits).idle n
      | inr (m, e) ↦ v.idle j o e n
    ];
    enrolled = λ j o h n. elim (update_cases i j y objects o h) [
      | inl (same, e) ↦ (Each-at (Fits slots' objects entries' i) y o e c.fits).enrolled n
      | inr (m, e) ↦
          let (k, at, there) = v.enrolled j o e n in (k, at, c.entries_kept j o m e n ∙ there)
    ];
    owned = λ ref k h. elim (c.owned ref k h) [
      | inl (o, e, is, at, n) ↦ (i, o, update_self i y objects ∙ e, is, at, n)
      | inr (before, free) ↦
          let (j, o, e, is, at, n) = v.owned ref k before in
          (
            j,
            o,
            update_other i j y objects (λ same.
                  Each-at (λ p. p.storage.ref ≢ ref) x o
                    (sym old ∙ subst (λ a. objects a ≡ some o) same e) free is)
                ∙ e,
            is,
            at,
            n,
          )
    ];
  }
