-- ===== src/Agent/Llm/React.antt =====
-- `chat_react` of intelligence-layer/src/agent/llm/openai_compat.py: rounds of tool calls.
use s_com_control_plane.Base.{
  List, Option, Text, [], codes, false, if◌then◌else◌, none, some, suc, text_dec, text_eq, true,
  zero, ℕ, ◌++◌, ◌==◌, ◌∷◌, ◌≟◌,
}
use s_com_control_plane.Base.Slices.{take}
use s_com_control_plane.Agent.Llm.{
  ToolCall, Message, assistant, tool, Mode, auto, forced, Failure, status, bad_json, missing_key,
  no_valid_json, other, Service, Chat, raised, chatted, Outcome, answer, raises, History, parsed,
  structured_output, chat, chat_json,
}
pub mod Bounds
pub mod Transcript

-- What a tool's handler does: it gives a text, another value, or raises.
pub data Handled (J : Type 0) : Type 0 where
  text : Text → Handled J
  value : J → Handled J
  raises_error : Text → Handled J

-- `json.dumps`, the JSON text of an error, and the tools by name.
pub record Tools (J : Type 0) : Type 0 where
  pub dumps : J → Text
  pub error_json : Text → Text
  pub handlers : Text → Option (J → Handled J)

-- What a round leads to: the end, or the next round with a longer conversation.
pub data Next (J : Type 0) : Type 0 where
  done : Outcome J × History J → Next J
  more : List (Message J) → History J → Next J

module _ {J : Type 0} (service : Service J) (tools : Tools J) where
  open tools use {dumps, error_json, handlers}

  -- The arguments of the first call of `structured_output`.
  unfoldable pub structured : List (ToolCall J) → Option J
  unfolding text_dec
  structured [] = none
  structured (c ∷ cs) = if c.name ≟ structured_output then some c.arguments else structured cs

  abbrev pub result_text : Handled J → Text
  result_text (text t) = t
  result_text (value j) = take 4000 (dumps j)
  result_text (raises_error m) = error_json m

  abbrev pub handled : Text → Option (J → Handled J) → J → Text
  handled name none args = error_json (codes "Unknown tool: " ++ name)
  handled name (some handler) args = result_text (handler args)

  -- The loop over the calls.
  unfoldable pub results : List (ToolCall J) → List (Message J)
  results [] = []
  results (c ∷ cs) = tool c.id c.name (handled c.name (handlers c.name) c.arguments) ∷ results cs

  abbrev pub content_or_none : Text → Option Text
  content_or_none [] = none
  content_or_none (c ∷ t) = some (c ∷ t)

  -- The conversation after a round.
  abbrev pub extended : List (Message J) → Text → List (ToolCall J) → List (Message J)
  unfolding results
  extended msgs t calls = msgs ++ (assistant (content_or_none t) calls ∷ results calls)

  -- `tool_choice`, from the rounds that are left after this one.
  abbrev pub choice : ℕ → Mode
  choice zero = forced
  choice (suc n) = auto

  abbrev pub on_failure : ℕ → Failure → List (Message J) → History J → Outcome J × History J
  unfolding chat_json
  on_failure zero (status n) msgs h = elim (n == 400) [
    | true ↦ chat_json service msgs h
    | false ↦ (raises (status n), h)
  ]
  on_failure (suc left) (status n) msgs h = (raises (status n), h)
  on_failure left f msgs h = (raises f, h)

  abbrev pub on_text : List (Message J) → Option J → History J → Outcome J × History J
  unfolding chat_json
  on_text messages (some j) h = (answer j, h)
  on_text messages none h = chat_json service messages h

  -- A round, from the answer on; `left` rounds may follow it.
  unfoldable pub next_of : List (Message J) → ℕ → List (Message J) → Chat J → History J → Next J
  unfolding on_failure on_text structured extended
  next_of messages left msgs (raised f) h = done (on_failure left f msgs h)
  next_of messages left msgs (chatted t []) h = done (on_text messages (parsed service t) h)
  next_of messages left msgs (chatted t (c ∷ cs)) h = elim (structured (c ∷ cs)) [
    | some j ↦ done (answer j, h)
    | none ↦ more (extended msgs t (c ∷ cs)) h
  ]

  unfoldable pub round : List (Message J) → ℕ → List (Message J) → History J → Next J
  unfolding chat next_of
  round messages left msgs h =
      let r = chat service (choice left) msgs h in next_of messages left msgs r.0 r.1

  -- The rounds that are left, over the conversation so far; `messages` is the one at the start.
  unfoldable pub rounds :
      List (Message J) → ℕ → List (Message J) → History J → Outcome J × History J
  unfolding chat_json round
  rounds messages zero msgs h = chat_json service messages h
  rounds messages (suc left) msgs h = elim (round messages left msgs h) [
    | done r ↦ r
    | more msgs' h' ↦ rounds messages left msgs' h'
  ]

  -- `chat_react`
  unfoldable pub chat_react : ℕ → List (Message J) → History J → Outcome J × History J
  unfolding rounds
  chat_react max_iterations messages h = rounds messages max_iterations messages h
