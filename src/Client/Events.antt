-- ===== src/Client/Events.antt =====
-- `Statsig::logEvent`: the text that is handed to `statsig_log_event`.
pub mod Text
use Prim.Native.String.{◌++◌}
use statsig_cpp_core.Prelude.{String, Bool, true, false, [], ◌∷◌, Dict, str_eq, if◌then◌else◌}

-- The loop over the pairs. The Boolean is the variable `first`.
pub pairs_loop : Bool → Dict String → String
pairs_loop first [] = ""
pairs_loop first ((k, v) ∷ rest) =
    (if first then "" else ",")
    ++ ("\"" ++ (k ++ ("\":\"" ++ (v ++ ("\"" ++ pairs_loop false rest)))))

pub value_text : Dict String → String
unfolding pairs_loop
value_text [] = ""
value_text (e ∷ rest) = ",\"value\":{" ++ (pairs_loop true (e ∷ rest) ++ "}")

pub metadata_text : String → String
metadata_text metadata = if str_eq metadata "" then "" else ",\"metadata\":\"" ++ (metadata ++ "\"")

pub event_text : String → Dict String → String → String
unfolding value_text metadata_text
event_text event_name event_value metadata =
    "{"
    ++ ("\"eventName\":\""
        ++ (event_name ++ ("\"" ++ (value_text event_value ++ (metadata_text metadata ++ "}")))))
