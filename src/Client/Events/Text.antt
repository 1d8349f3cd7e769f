-- ===== src/Client/Events/Text.antt =====
-- The text of an event does not determine the event.
use Prim.Native.String.{◌++◌}
use text.Mathlib.TextLemmas.{nil-append, append_assoc}
use statsig_cpp_core.Prelude.{String, ◌≡◌, refl, ap, ◌∙◌, false, [], str_eq}
use statsig_cpp_core.Client.Events.{value_text, metadata_text, event_text}

-- What an event's name has to hold, to end the name and begin the metadata.
abbrev pub break_out : String
break_out = "\",\"metadata\":\""

split_break_out : (s : String) → break_out ++ s ≡ "\"" ++ (",\"metadata\":\"" ++ s)
split_break_out s = append_assoc "\"" ",\"metadata\":\"" s

-- For every name and non-empty metadata, an event without metadata whose name holds the one, a
-- quote and the start of the other has the text of the event with this name and this metadata: the
-- parts are not escaped.
pub event_text_ambiguous :
    (name metadata : String)
    → str_eq metadata "" ≡ false
    → event_text (name ++ (break_out ++ metadata)) [] "" ≡ event_text name [] metadata
unfolding event_text value_text metadata_text
event_text_ambiguous name metadata nonempty =
    ap (λ s. "{" ++ ("\"eventName\":\"" ++ s))
      (append_assoc name (break_out ++ metadata) "\"}"
        ∙ ap (λ s. name ++ s)
            (append_assoc break_out metadata "\"}"
              ∙ split_break_out (metadata ++ "\"}")
              ∙ ap (λ s. "\"" ++ s)
                  (rw
                    (
                      nonempty,
                      nil-append ((",\"metadata\":\"" ++ (metadata ++ "\"")) ++ "}"),
                      append_assoc ",\"metadata\":\"" (metadata ++ "\"") "}",
                      append_assoc metadata "\"" "}",
                    )
                    refl)))
