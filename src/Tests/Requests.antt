-- ===== src/Tests/Requests.antt =====
-- Saves, a deletion and a load through the slot of a storage that keeps a map.
use statsig_cpp_core.Prelude.{
  String, ◌≡◌, refl, Option, none, some, List, [], ◌∷◌, lookup, insert, lookup-insert, erase,
  lookup-erase, ok, str_eq, if◌then◌else◌, arith,
}
use statsig_cpp_core.Prelude.Effects.{Exec}
use statsig_cpp_core.Json.Tree.{Tree}
use statsig_cpp_core.Sticky.{StickyValues, UserPersistedValues}
use statsig_cpp_core.Slots
use statsig_cpp_core.Host.{World, no_faults}
use statsig_cpp_core.Storage.Dispatch.{PersistentStorageCallbacks, dispatch_load}
use statsig_cpp_core.Storage.Dispatch.Requests.{
  StickyMap, put, KeepsValues, Request, after_all, Tells, dispatch_all,
}
use statsig_cpp_core.Storage.Dispatch.Requests.Refines.{requests_refine_map}
use statsig_cpp_core.Tests.Calls.{api, laws, memory, args, values, data_found, values-IsStorable}

-- The user's state: the values of each key.
abbrev Values : Type 0
Values = String → UserPersistedValues Tree

abbrev change :
    (UserPersistedValues Tree → UserPersistedValues Tree) → String → Exec (World Values) (Unit {0})
change f key w = (ok tt, record w { user = λ k. if str_eq key k then f (w.user k) else w.user k })

abbrev keeping : PersistentStorageCallbacks Tree Values
keeping = record {
  load = some (λ key w. (ok (some (w.user key)), w));
  save = some (λ key name v. change (insert name v) key);
  delete_value = some (λ key name. change (erase name) key);
}

abbrev view : Values → StickyMap Tree
view u k i = lookup i (u k)

view-change :
    (f : UserPersistedValues Tree → UserPersistedValues Tree) (key name : String)
    (o : Option (StickyValues Tree)) (u : Values)
    → ((m : UserPersistedValues Tree) (i : String)
        → lookup i (f m) ≡ (if str_eq name i then o else lookup i m))
    → (k i : String)
    → view (λ k. if str_eq key k then f (u k) else u k) k i ≡ put key name o (view u) k i
view-change f key name o u h k i = ground (arith, h (u k) i)

keeping-KeepsValues : KeepsValues view keeping
keeping-KeepsValues = record {
  load = λ key w. (ok (some (w.user key)), w);
  save = λ key name v. change (insert name v) key;
  delete_value = λ key name. change (erase name) key;
  has_load = refl;
  has_save = refl;
  has_delete = refl;
  loads = λ key w. (some (w.user key), λ i. refl, (w, refl, refl, λ k i. refl));
  saves = λ key name v w. (
    _,
    refl,
    refl,
    view-change (insert name v) key name (some v) w.user (λ m i. lookup-insert name i v m),
  );
  deletes = λ key name w.
      (_, refl, refl, view-change (erase name) key name none w.user (λ m i. lookup-erase name i m));
}

abbrev start : World Values
start = record { slots = none ∷ some 7 ∷ []; events = []; buffer = ""; user = λ k. [] }

start_held : Slots.load_callbacks start.slots 1 ≡ some 7
unfolding Slots.load_callbacks
start_held = refl

abbrev requests : List (Request Tree)
requests =
    Request.save 40 8 "u:userID" "exp" values
    ∷ Request.delete_value 50 8 "u:userID" "exp"
    ∷ Request.load 60 8 "u:userID"
    ∷ Request.save 70 8 "u:userID" "exp" values
    ∷ []

requests_refine_map_example :
    Tells api
      (dispatch_load api
        (λ c. keeping)
        no_faults
        memory
        1
        (some 80)
        8
        (dispatch_all api (λ c. keeping) no_faults memory 1 requests start)).0
      (after_all requests (view start.user) "u:userID")
requests_refine_map_example =
    requests_refine_map api laws memory (λ c. keeping) no_faults refl refl view 1 7
      keeping-KeepsValues (λ m. ("{}", refl)) requests 80 8 start start_held
      (
        (args, refl, refl, refl, data_found, values-IsStorable),
        (
          (args, refl, refl, refl),
          ((refl, refl), ((args, refl, refl, refl, data_found, values-IsStorable), tt)),
        ),
      )
      refl
