-- ===== src/User.antt =====
-- src/user.h and src/user.cpp: the builder of a user, and its JSON form.
pub mod Entries
pub mod RoundTrip
use statsig_cpp_core.Prelude.{
  ℕ, String, ◌&&◌, Option, none, some, [], ◌∷◌, map, Dict, insert, Exn, json_exception,
  std_exception, non_std, Result, ok, throw, if◌then◌else◌,
}
use statsig_cpp_core.Prelude.Results.{◌>>=◌}
use statsig_cpp_core.Json.{JsonApi, is_object}
use statsig_cpp_core.Types.{get_optional}
use statsig_cpp_core.Types.Allowed.{AllowedType, allowed_from_json, allowed_map_to_json}

pub record UserBuilder (D : Type 0) : Type 0 where
  pub user_id : Option String
  pub custom_ids : Option (Dict String)
  pub email : Option String
  pub ip : Option String
  pub user_agent : Option String
  pub country : Option String
  pub locale : Option String
  pub app_version : Option String
  pub custom : Option (Dict (AllowedType D))
  pub private_attribute : Option (Dict (AllowedType D))

-- `UserBuilder()`
abbrev pub new_user : (D : Type 0) → UserBuilder D
new_user D = record {
  user_id = none;
  custom_ids = none;
  email = none;
  ip = none;
  user_agent = none;
  country = none;
  locale = none;
  app_version = none;
  custom = none;
  private_attribute = none;
}

module _ {D : Type 0} where
  pub set_user_id : String → UserBuilder D → UserBuilder D
  set_user_id id u = record u { user_id = some id }

  pub set_custom_ids : Dict String → UserBuilder D → UserBuilder D
  set_custom_ids ids u = record u { custom_ids = some ids }

  pub set_email : String → UserBuilder D → UserBuilder D
  set_email email u = record u { email = some email }

  pub set_ip : String → UserBuilder D → UserBuilder D
  set_ip ip u = record u { ip = some ip }

  pub set_user_agent : String → UserBuilder D → UserBuilder D
  set_user_agent agent u = record u { user_agent = some agent }

  pub set_country : String → UserBuilder D → UserBuilder D
  set_country country u = record u { country = some country }

  pub set_locale : String → UserBuilder D → UserBuilder D
  set_locale locale u = record u { locale = some locale }

  pub set_app_version : String → UserBuilder D → UserBuilder D
  set_app_version version u = record u { app_version = some version }

  pub set_custom : Dict (AllowedType D) → UserBuilder D → UserBuilder D
  set_custom custom u = record u { custom = some custom }

  pub set_private_attribute : Dict (AllowedType D) → UserBuilder D → UserBuilder D
  set_private_attribute attributes u = record u { private_attribute = some attributes }

-- `catch (const std::exception &)`
abbrev pub is_std_exception : {A : Type 0} → Exn → A → Result A
is_std_exception json_exception a = ok a
is_std_exception std_exception a = ok a
is_std_exception non_std a = throw non_std

module _ (api : JsonApi) where
  open api use {
    Json, Double, null, dump, of_string, of_object, of_optional, contains, index, items, get_string,
    get_map,
  }

  -- One round of the loop: an entry that cannot be decoded is reported and left out.
  add_entry :
      String
      → Result (AllowedType Double)
      → Dict (AllowedType Double)
      → Result (Dict (AllowedType Double))
  add_entry k (ok v) m = ok (insert k v m)
  add_entry k (throw e) m = is_std_exception e m

  pub decode_entries : Dict Json → Dict (AllowedType Double) → Result (Dict (AllowedType Double))
  decode_entries [] m = ok m
  decode_entries ((k, v) ∷ rest) m = do
    m' ← add_entry k (allowed_from_json api v) m
    decode_entries rest m'

  pub decode_custom : Json → String → Result (Option (Dict (AllowedType Double)))
  decode_custom j key =
      if contains j key && is_object api (index j key)
      then (do m ← decode_entries (items (index j key)) []; ok (some m))
      else ok none

  pub user_from_json : Json → Result (UserBuilder Double)
  user_from_json j = do
    user_id ← get_optional api get_string j "userID"
    custom_ids ← get_optional api (get_map get_string) j "customIDs"
    email ← get_optional api get_string j "email"
    ip ← get_optional api get_string j "ip"
    user_agent ← get_optional api get_string j "userAgent"
    country ← get_optional api get_string j "country"
    locale ← get_optional api get_string j "locale"
    app_version ← get_optional api get_string j "appVersion"
    custom ← decode_custom j "custom"
    private_attribute ← decode_custom j "privateAttributes"
    ok (record {
      user_id = user_id;
      custom_ids = custom_ids;
      email = email;
      ip = ip;
      user_agent = user_agent;
      country = country;
      locale = locale;
      app_version = app_version;
      custom = custom;
      private_attribute = private_attribute;
    })

  custom_to_json : Option (Dict (AllowedType Double)) → Json
  custom_to_json none = null
  custom_to_json (some m) = allowed_map_to_json api m

  ids_to_json : Dict String → Json
  ids_to_json m = of_object (map (λ e. (e.0, of_string e.1)) m)

  pub user_to_json : UserBuilder Double → Json
  user_to_json u = of_object (
      ("userID", of_optional of_string u.user_id)
      ∷ ("customIDs", of_optional ids_to_json u.custom_ids)
      ∷ ("email", of_optional of_string u.email)
      ∷ ("ip", of_optional of_string u.ip)
      ∷ ("userAgent", of_optional of_string u.user_agent)
      ∷ ("country", of_optional of_string u.country)
      ∷ ("locale", of_optional of_string u.locale)
      ∷ ("appVersion", of_optional of_string u.app_version)
      ∷ ("custom", custom_to_json u.custom)
      ∷ ("privateAttributes", custom_to_json u.private_attribute)
      ∷ [])

  -- `build()`: the ref that `statsig_user_create_from_data` gives for the text.
  pub build_user : (String → ℕ) → UserBuilder Double → Result ℕ
  build_user create u = do serialized ← dump (user_to_json u); ok (create serialized)
