-- ===== src/Layer/Exposures/Served.antt =====
-- Which reads log an exposure.
use statsig_cpp_core.Prelude.{
  String, ◌≡◌, refl, Option, none, some, List, [], ◌∷◌, lookup, Result, ok, throw,
}
use statsig_cpp_core.Layer.{Layer}
use statsig_cpp_core.Layer.Exposures.{Exposure, read_value, get_found, get, get_all}

module _ {J A : Type 0} (convert : J → Result A) (l : Layer J) where
  -- The value that the layer has for a key and that has the type that is asked for.
  abbrev to_option : Result A → Option A
  to_option (ok a) = some a
  to_option (throw e) = none

  abbrev convert_found : Option J → Option A
  convert_found none = none
  convert_found (some v) = to_option (convert v)

  abbrev pub served : String → Option A
  served key = convert_found (lookup key l.value)

  abbrev exposure : String → Exposure
  exposure key = record { statsig_ref = l.statsig_ref; json_str = l.json_str; param_name = key }

  abbrev result_of : A → Option A → A
  result_of fallback none = fallback
  result_of fallback (some a) = a

  abbrev log_of : String → Option A → List Exposure → List Exposure
  log_of key none log = log
  log_of key (some a) log = exposure key ∷ log

  -- The results of a row of reads, and the log after it.
  abbrev pub results : List (String × A) → List A
  results [] = []
  results ((key, fallback) ∷ rest) = result_of fallback (served key) ∷ results rest

  abbrev pub exposures : List (String × A) → List Exposure → List Exposure
  exposures [] log = log
  exposures ((key, fallback) ∷ rest) log = exposures rest (log_of key (served key) log)

  read_value-result :
      (key : String) (fallback : A) (v : J) (r : Result A) (log : List Exposure)
      → convert v ≡ r
      → get_found convert l key fallback (some v) log
        ≡ (ok (result_of fallback (to_option r)), log_of key (to_option r) log)
  unfolding get_found read_value
  read_value-result key fallback v (ok a) log e = rw e refl
  read_value-result key fallback v (throw x) log e = rw e refl

  get_found-result :
      (key : String) (fallback : A) (o : Option J) (log : List Exposure)
      → get_found convert l key fallback o log
        ≡ (ok (result_of fallback (convert_found o)), log_of key (convert_found o) log)
  unfolding get_found
  get_found-result key fallback none log = refl
  get_found-result key fallback (some v) log = read_value-result key fallback v (convert v) log refl

  -- A row of reads of a layer never throws. Each read gives the layer's value if there is one of
  -- the type that is asked for, and the fallback otherwise; and it logs an exposure, with the
  -- layer's ref and text and the key, exactly in the first case, in the order of the reads.
  pub get_all_served :
      (keys : List (String × A)) (log : List Exposure)
      → get_all convert l keys log ≡ (ok (results keys), exposures keys log)
  unfolding get_all get
  get_all_served [] log = refl
  get_all_served ((key, fallback) ∷ rest) log =
      rw
        (
          get_found-result key fallback (lookup key l.value) log,
          get_all_served rest (log_of key (served key) log),
        )
        refl
