-- ===== src/User/Entries.antt =====
-- Which custom attributes a decoded user has.
use statsig_cpp_core.Prelude.{
  String, ◌≡◌, ◌≢◌, refl, ap, ◌∙◌, Option, some, [], ◌∷◌, Dict, lookup, insert, lookup-insert, All,
  Result, ok, throw, json_exception, std_exception, non_std, str_eq, if◌then◌else◌, bind_ok,
}
use statsig_cpp_core.Json.{JsonApi}
use statsig_cpp_core.Types.Allowed.{AllowedType, allowed_from_json}
use statsig_cpp_core.User.{add_entry, decode_entries}

module _ (api : JsonApi) where
  open api use {Json, Double}

  abbrev entry_of :
      String
      → String
      → Result (AllowedType Double)
      → Option (AllowedType Double)
      → Option (AllowedType Double)
  entry_of i k (ok v) o = if str_eq i k then some v else o
  entry_of i k (throw e) o = o

  -- The value of the last entry of a key that can be decoded, or else `o`.
  abbrev pub last_decoded :
      Dict Json → String → Option (AllowedType Double) → Option (AllowedType Double)
  last_decoded [] k o = o
  last_decoded ((i, j) ∷ rest) k o = last_decoded rest k (entry_of i k (allowed_from_json api j) o)

  -- The decoder throws nothing but a `std::exception` on the entries.
  abbrev pub ThrowsStd : Dict Json → Type 0
  ThrowsStd entries = All (λ e. allowed_from_json api e.1 ≢ throw non_std) entries

  add_entry_lem :
      (i : String) (r : Result (AllowedType Double)) (m : Dict (AllowedType Double))
      → r ≢ throw non_std
      → (m' : Dict (AllowedType Double)) × (add_entry api i r m ≡ ok m')
        × ((k : String) → lookup k m' ≡ entry_of i k r (lookup k m))
  unfolding add_entry
  add_entry_lem i (ok v) m h = (insert i v m, refl, λ k. lookup-insert i k v m)
  add_entry_lem i (throw json_exception) m h = (m, refl, λ k. refl)
  add_entry_lem i (throw std_exception) m h = (m, refl, λ k. refl)
  add_entry_lem i (throw non_std) m h = absurd (h refl)

  -- If decoding an attribute throws nothing but descendants of std::exception, decoding the
  -- attributes of a user throws nothing: the result has, for each key, the value of the last entry
  -- of this key that can be decoded, and entries that cannot be decoded are left out.
  pub decode_entries_lenient :
      (entries : Dict Json) (m : Dict (AllowedType Double))
      → ThrowsStd entries
      → (m' : Dict (AllowedType Double)) × (decode_entries api entries m ≡ ok m')
        × ((k : String) → lookup k m' ≡ last_decoded entries k (lookup k m))
  unfolding decode_entries
  decode_entries_lenient [] m h = (m, refl, λ k. refl)
  decode_entries_lenient ((i, j) ∷ rest) m h =
      let (m1, added, first) = add_entry_lem i (allowed_from_json api j) m h.0 in
      let (m2, decoded, others) = decode_entries_lenient rest m1 h.1 in
      (m2, bind_ok _ added decoded, λ k. others k ∙ ap (last_decoded rest k) (first k))
