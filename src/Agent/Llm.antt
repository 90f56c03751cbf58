-- ===== src/Agent/Llm.antt =====
-- intelligence-layer/src/agent/llm/openai_compat.py: the calls of an OpenAI-compatible service. The
-- service is a parameter: what it answers to a request, given all requests before. So is json: `J`
-- is the type of its values. Tracing, token counts and the sampling options are left out.
use s_com_control_plane.Base.{
  Bool, List, Option, Text, [], codes, false, if◌then◌else◌, is_empty, none, or_else, some, strip,
  true, ℕ, ◌++◌, ◌==◌, ◌∷◌,
}
pub mod React

pub record ToolCall (J : Type 0) : Type 0 where
  pub id : Text
  pub name : Text
  pub arguments : J

-- A message of a conversation; `plain` has its role and its text.
pub data Message (J : Type 0) : Type 0 where
  plain : Text → Text → Message J
  assistant : Option Text → List (ToolCall J) → Message J
  tool : Text → Text → Text → Message J

-- What a request asks for: any tool, the call of `structured_output`, or JSON text.
pub data Mode : Type 0 where
  auto forced json_object : Mode

pub record Request (J : Type 0) : Type 0 where
  pub messages : List (Message J)
  pub mode : Mode

-- The exceptions: `HTTPStatusError`, `JSONDecodeError`, `KeyError`, the `ValueError` at the end of
-- `chat_json`, and all others.
pub data Failure : Type 0 where
  status : ℕ → Failure
  bad_json missing_key no_valid_json : Failure
  other : Text → Failure

-- A tool call as the service writes it.
pub record RawCall : Type 0 where
  pub id : Option Text
  pub name : Text
  pub arguments : Text

-- What one HTTP call gives: an exception, or the first choice's message.
pub data Http : Type 0 where
  fails : Failure → Http
  message : Option Text → List RawCall → Http

pub data Chat (J : Type 0) : Type 0 where
  raised : Failure → Chat J
  chatted : Text → List (ToolCall J) → Chat J

-- How a call that is to give JSON ends.
pub data Outcome (J : Type 0) : Type 0 where
  answer : J → Outcome J
  raises : Failure → Outcome J

-- The requests so far, newest first.
abbrev pub History : Type 0 → Type 0
History J = List (Request J)

abbrev pub structured_output : Text
structured_output = codes "structured_output"

-- What the calls rely on: `json.loads`, whose failure is `none`, the text that describes the schema,
-- and the service's answer to the newest request of a history.
pub record Service (J : Type 0) : Type 0 where
  pub loads : Text → Option J
  pub schema_hint : Text
  pub server : History J → Http

module _ {J : Type 0} (service : Service J) where
  open service use {loads, schema_hint, server}

  -- The tool calls of a message, their arguments read; `none` is the `JSONDecodeError`.
  unfoldable pub read_calls : List RawCall → Option (List (ToolCall J))
  read_calls [] = some []
  read_calls (c ∷ cs) = elim (loads c.arguments) [
    | none ↦ none
    | some j ↦ elim (read_calls cs) [
      | none ↦ none
      | some rest ↦ some (record { id = or_else c.id []; name = c.name; arguments = j } ∷ rest)
    ]
  ]

  abbrev pub chatted_or : Option Text → Option (List (ToolCall J)) → Chat J
  chatted_or content none = raised bad_json
  chatted_or content (some calls) = chatted (or_else content []) calls

  abbrev pub chat_of : Http → Chat J
  unfolding read_calls
  chat_of (fails f) = raised f
  chat_of (message content calls) = chatted_or content (read_calls calls)

  -- `chat`: the request, and what is made of the answer.
  unfoldable pub chat : Mode → List (Message J) → History J → Chat J × History J
  unfolding chat_of
  chat mode msgs h =
      let sent = record { messages = msgs; mode = mode } ∷ h in (chat_of (server sent), sent)

  -- The text of an answer as JSON, where there is any text.
  abbrev pub parsed : Text → Option J
  parsed t = if is_empty (strip t) then none else loads t

  -- `fallback_msgs`
  abbrev pub with_hint : List (Message J) → List (Message J)
  with_hint msgs = msgs ++ (plain (codes "system") schema_hint ∷ [])

  -- Whether the second attempt of the fallback follows an exception.
  abbrev pub retried : Failure → Bool
  retried (status n) = true
  retried bad_json = true
  retried missing_key = true
  retried no_valid_json = false
  retried (other t) = false

  -- What one attempt gives: an outcome, an exception that it catches, or no text.
  abbrev pub attempted : Http → Option (Outcome J)
  attempted (fails f) = some (raises f)
  attempted (message content calls) =
      let t = or_else content [] in
      if is_empty (strip t)
      then none
      else elim (loads t) [ none ↦ some (raises bad_json) | some j ↦ some (answer j) ]

  abbrev pub last_attempt : Option (Outcome J) → Outcome J
  last_attempt none = raises no_valid_json
  last_attempt (some o) = o

  abbrev pub request_json : List (Message J) → History J → History J
  request_json msgs h = record { messages = with_hint msgs; mode = json_object } ∷ h

  abbrev pub second_attempt : List (Message J) → History J → Outcome J × History J
  second_attempt msgs h =
      let sent = request_json msgs h in (last_attempt (attempted (server sent)), sent)

  abbrev pub after_first : List (Message J) → Option (Outcome J) → History J → Outcome J × History J
  after_first msgs none h = second_attempt msgs h
  after_first msgs (some (answer j)) h = (answer j, h)
  after_first msgs (some (raises f)) h = elim (retried f) [
    | true ↦ second_attempt msgs h
    | false ↦ (raises f, h)
  ]

  -- The loop over the two attempts.
  unfoldable pub fallback : List (Message J) → History J → Outcome J × History J
  fallback msgs h =
      let sent = request_json msgs h in after_first msgs (attempted (server sent)) sent

  abbrev pub after_chat : List (Message J) → Chat J → History J → Outcome J × History J
  unfolding fallback
  after_chat msgs (raised (status n)) h = elim (n == 400) [
    | true ↦ fallback msgs h
    | false ↦ (raises (status n), h)
  ]
  after_chat msgs (raised bad_json) h = (raises bad_json, h)
  after_chat msgs (raised missing_key) h = (raises missing_key, h)
  after_chat msgs (raised no_valid_json) h = (raises no_valid_json, h)
  after_chat msgs (raised (other t)) h = (raises (other t), h)
  after_chat msgs (chatted t (c ∷ cs)) h = (answer c.arguments, h)
  after_chat msgs (chatted t []) h = elim (loads t) [
    | some j ↦ (answer j, h)
    | none ↦ fallback msgs h
  ]

  -- `chat_json`
  unfoldable pub chat_json : List (Message J) → History J → Outcome J × History J
  unfolding chat after_chat
  chat_json msgs h = let r = chat forced msgs h in after_chat msgs r.0 r.1
