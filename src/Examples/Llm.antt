-- ===== src/Examples/Llm.antt =====
-- A service that calls a tool, and then the structured output when it is asked to.
use s_com_control_plane.Base.{List, Text, [], codes, none, some, ◌∷◌}
use s_com_control_plane.Agent.Llm.{
  Message, plain, Mode, auto, forced, json_object, RawCall, Http, message, History, Service,
  structured_output,
}
use s_com_control_plane.Agent.Llm.React.{Tools, text, chat_react}
use s_com_control_plane.Agent.Llm.React.Bounds.{Sends, chat_react-Sends}
use s_com_control_plane.Agent.Llm.React.Transcript.{AllClosed, chat_react-AllClosed}

abbrev call : Text → RawCall
call n = record { id = some (codes "c1"); name = n; arguments = codes "{}" }

abbrev replies : Mode → Http
replies auto = message none (call (codes "query_kg") ∷ [])
replies forced = message none (call structured_output ∷ [])
replies json_object = message (some (codes "{}")) []

abbrev newest : History Text → Http
newest [] = message none []
newest (r ∷ h) = replies r.mode

abbrev service : Service Text
service = record { loads = λ t. some t; schema_hint = codes "schema"; server = newest }

abbrev tools : Tools Text
tools = record { dumps = λ t. t; error_json = λ t. t; handlers = λ _. some (λ t. text t) }

abbrev question : List (Message Text)
question = plain (codes "system") (codes "decide") ∷ plain (codes "user") (codes "alert") ∷ []

chat_react-Sends_example : Sends service 1 8 [] (chat_react service tools 5 question [])
chat_react-Sends_example = chat_react-Sends service tools 5 question []

chat_react-AllClosed_example : AllClosed (chat_react service tools 5 question []).1
chat_react-AllClosed_example = chat_react-AllClosed service tools 5 question tt
