-- ===== src/Options/Persisted.antt =====
-- The persisted values in the options of `getExperiment` and `getLayer`.
use statsig_cpp_core.Prelude.{String, ◌≡◌, refl, true, Option, none, some, lookup}
use statsig_cpp_core.Json.{JsonApi, JsonLaws, is_object}
use statsig_cpp_core.Sticky.{UserPersistedValues, persisted_to_json, sticky_to_json}
use statsig_cpp_core.Json.Entries.{map_some}
use statsig_cpp_core.Sticky.Persisted.{find-persisted_to_json}
use statsig_cpp_core.Options.{
  GetExperimentOptions, GetLayerOptions, assign_persisted, experiment_options_to_json,
  layer_options_to_json,
}

module _ (api : JsonApi) (laws : JsonLaws api) where
  open api use {Json, find}

  find-assign_persisted :
      (j : Json) (o : Option (UserPersistedValues Json))
      → is_object api j ≡ true
      → find j "user_persisted_values" ≡ none
      → find (assign_persisted api j o) "user_persisted_values" ≡ map_some (persisted_to_json api) o
  unfolding assign_persisted
  find-assign_persisted j none h e = e
  find-assign_persisted j (some m) h e =
      laws.find-assign j "user_persisted_values" "user_persisted_values" _ h

  -- The options of getExperiment have an entry for the persisted values exactly if they are set,
  -- so that no values and an empty map are told apart; and for every map of them and every config,
  -- the map's JSON object has the encoded sticky values of this config, if the map has some.
  pub options_carry_persisted :
      (b : GetExperimentOptions Json) (l : GetLayerOptions Json) (config : String)
      → (find (experiment_options_to_json api b) "user_persisted_values"
          ≡ map_some (persisted_to_json api) b.user_persisted_values)
        × (find (layer_options_to_json api l) "user_persisted_values"
            ≡ map_some (persisted_to_json api) l.user_persisted_values)
        × ((m : UserPersistedValues Json)
            → find (persisted_to_json api m) config
              ≡ map_some (sticky_to_json api) (lookup config m))
  unfolding experiment_options_to_json layer_options_to_json
  options_carry_persisted b l config = (
    find-assign_persisted _ b.user_persisted_values (rw (laws.kind-of_object _) refl)
        (laws.find-of_object _ _),
    find-assign_persisted _ l.user_persisted_values (rw (laws.kind-of_object _) refl)
        (laws.find-of_object _ _),
    λ m. find-persisted_to_json api laws m config,
  )
