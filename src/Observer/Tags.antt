-- ===== src/Observer/Tags.antt =====
-- `parse_tags` of src/observability_client.cpp.
pub mod Strings
use statsig_cpp_core.Prelude.{String, ◌&&◌, [], ◌∷◌, Dict, emplace, Result, ok, if◌then◌else◌}
use statsig_cpp_core.Prelude.Results.{◌>>=◌}
use statsig_cpp_core.Json.{JsonApi, is_string, is_object}

module _ (api : JsonApi) where
  open api use {Json, contains, index, items, get_string}

  -- One round of the loop over the entries: those that are no strings are left out.
  add_tag : String → Json → Dict String → Result (Dict String)
  add_tag k v tags =
      if is_string api v then (do s ← get_string v; ok (emplace k s tags)) else ok tags

  add_tags : Dict Json → Dict String → Result (Dict String)
  add_tags [] tags = ok tags
  add_tags ((k, v) ∷ entries) tags = do tags' ← add_tag k v tags; add_tags entries tags'

  pub parse_tags : Json → Result (Dict String)
  parse_tags j =
      let entries = items (index j "tags") in
      if contains j "tags" && is_object api (index j "tags") then add_tags entries [] else ok []
