-- ===== src/Agent/Llm/React/Transcript.antt =====
-- The conversations that are sent: the service refuses one in which a tool call has no reply.
use s_com_control_plane.Base.{
  All, Bool-cases, List, Option, Option-cases, Text, [], inl, inr, none, refl, some, suc, zero, ℕ,
  ◌++◌, ◌==◌, ◌∷◌, ◌≡◌,
}
use s_com_control_plane.Agent.Llm.{
  ToolCall, Message, plain, assistant, tool, Request, Failure, status, bad_json, missing_key,
  no_valid_json, other, Chat, raised, chatted, Outcome, answer, raises, History, Service, forced,
  chat, chat_json, fallback, after_chat, after_first, attempted, request_json, parsed, with_hint,
}
use s_com_control_plane.Agent.Llm.React.{
  Tools, Next, done, more, structured, choice, extended, results, content_or_none, on_failure,
  on_text, next_of, round, rounds, chat_react,
}

module _ {J : Type 0} where
  -- The calls of each message are answered by the messages after it, one by one and in their order;
  -- `pending` are the ones still to be answered.
  abbrev pub Closed : (pending : List (ToolCall J)) → List (Message J) → Type 0
  Closed [] [] = Unit
  Closed (c ∷ cs) [] = ⊥
  Closed [] (plain role t ∷ msgs) = Closed [] msgs
  Closed [] (assistant t calls ∷ msgs) = Closed calls msgs
  Closed [] (tool i n t ∷ msgs) = ⊥
  Closed (c ∷ cs) (plain role t ∷ msgs) = ⊥
  Closed (c ∷ cs) (assistant t calls ∷ msgs) = ⊥
  Closed (c ∷ cs) (tool i n t ∷ msgs) = (i ≡ c.id) × (n ≡ c.name) × Closed cs msgs

  -- All requests carry such a conversation.
  abbrev pub AllClosed : History J → Type 0
  AllClosed h = All (λ (r : Request J). Closed [] r.messages) h

  Closed-append :
      (pending : List (ToolCall J)) (xs ys : List (Message J))
      → Closed pending xs
      → Closed [] ys
      → Closed pending (xs ++ ys)
  Closed-append [] [] ys hx hy = hy
  Closed-append (c ∷ cs) [] ys hx hy = absurd hx
  Closed-append [] (plain role t ∷ xs) ys hx hy = Closed-append [] xs ys hx hy
  Closed-append [] (assistant t calls ∷ xs) ys hx hy = Closed-append calls xs ys hx hy
  Closed-append [] (tool i n t ∷ xs) ys hx hy = absurd hx
  Closed-append (c ∷ cs) (plain role t ∷ xs) ys hx hy = absurd hx
  Closed-append (c ∷ cs) (assistant t calls ∷ xs) ys hx hy = absurd hx
  Closed-append (c ∷ cs) (tool i n t ∷ xs) ys hx hy = (hx.0, hx.1, Closed-append cs xs ys hx.2 hy)

module _ {J : Type 0} (service : Service J) where
  with_hint-Closed : (msgs : List (Message J)) → Closed [] msgs → Closed [] (with_hint service msgs)
  with_hint-Closed msgs k = Closed-append [] msgs _ k tt

  after_first-AllClosed :
      (msgs : List (Message J)) (o : Option (Outcome J)) (h : History J)
      → Closed [] msgs
      → AllClosed h
      → AllClosed (after_first service msgs o h).1
  after_first-AllClosed msgs none h k a = (with_hint-Closed msgs k, a)
  after_first-AllClosed msgs (some (answer j)) h k a = a
  after_first-AllClosed msgs (some (raises (status n))) h k a = (with_hint-Closed msgs k, a)
  after_first-AllClosed msgs (some (raises bad_json)) h k a = (with_hint-Closed msgs k, a)
  after_first-AllClosed msgs (some (raises missing_key)) h k a = (with_hint-Closed msgs k, a)
  after_first-AllClosed msgs (some (raises no_valid_json)) h k a = a
  after_first-AllClosed msgs (some (raises (other t))) h k a = a

  fallback-AllClosed :
      (msgs : List (Message J)) (h : History J)
      → Closed [] msgs
      → AllClosed h
      → AllClosed (fallback service msgs h).1
  unfolding fallback
  fallback-AllClosed msgs h k a =
      let sent = request_json service msgs h in
      after_first-AllClosed msgs (attempted service (service.server sent)) sent k
        (with_hint-Closed msgs k, a)

  after_chat-AllClosed :
      (msgs : List (Message J)) (c : Chat J) (h : History J)
      → Closed [] msgs
      → AllClosed h
      → AllClosed (after_chat service msgs c h).1
  unfolding after_chat
  after_chat-AllClosed msgs (raised (status n)) h k a = elim (Bool-cases (n == 400)) [
    | inl refused ↦ rw (refused, after_chat) (fallback-AllClosed msgs h k a)
    | inr not_refused ↦ rw (not_refused, after_chat) a
  ]
  after_chat-AllClosed msgs (raised bad_json) h k a = a
  after_chat-AllClosed msgs (raised missing_key) h k a = a
  after_chat-AllClosed msgs (raised no_valid_json) h k a = a
  after_chat-AllClosed msgs (raised (other t)) h k a = a
  after_chat-AllClosed msgs (chatted t (c ∷ cs)) h k a = a
  after_chat-AllClosed msgs (chatted t []) h k a = elim (Option-cases (service.loads t)) [
    | inl n ↦ rw (n, after_chat) (fallback-AllClosed msgs h k a)
    | inr (j, s) ↦ rw (s, after_chat) a
  ]

  chat_json-AllClosed :
      (msgs : List (Message J)) (h : History J)
      → Closed [] msgs
      → AllClosed h
      → AllClosed (chat_json service msgs h).1
  unfolding chat_json chat
  chat_json-AllClosed msgs h k a =
      let r = chat service forced msgs h in after_chat-AllClosed msgs r.0 r.1 k (k, a)

  module _ (tools : Tools J) where
    results-Closed : (calls : List (ToolCall J)) → Closed calls (results service tools calls)
    unfolding results
    results-Closed [] = tt
    results-Closed (c ∷ cs) = (refl, refl, results-Closed cs)

    extended-Closed :
        (msgs : List (Message J)) (t : Text) (calls : List (ToolCall J))
        → Closed [] msgs
        → Closed [] (extended service tools msgs t calls)
    unfolding extended
    extended-Closed msgs t calls k =
        Closed-append [] msgs
          (assistant (content_or_none service tools t) calls ∷ results service tools calls) k
          (results-Closed calls)

    on_failure-AllClosed :
        (left : ℕ) (f : Failure) (msgs : List (Message J)) (h : History J)
        → Closed [] msgs
        → AllClosed h
        → AllClosed (on_failure service tools left f msgs h).1
    unfolding on_failure
    on_failure-AllClosed zero (status n) msgs h k a = elim (Bool-cases (n == 400)) [
      | inl refused ↦ rw (refused, on_failure) (chat_json-AllClosed msgs h k a)
      | inr not_refused ↦ rw (not_refused, on_failure) a
    ]
    on_failure-AllClosed (suc left) (status n) msgs h k a = a
    on_failure-AllClosed zero bad_json msgs h k a = a
    on_failure-AllClosed (suc left) bad_json msgs h k a = a
    on_failure-AllClosed zero missing_key msgs h k a = a
    on_failure-AllClosed (suc left) missing_key msgs h k a = a
    on_failure-AllClosed zero no_valid_json msgs h k a = a
    on_failure-AllClosed (suc left) no_valid_json msgs h k a = a
    on_failure-AllClosed zero (other t) msgs h k a = a
    on_failure-AllClosed (suc left) (other t) msgs h k a = a

    on_text-AllClosed :
        (messages : List (Message J)) (o : Option J) (h : History J)
        → Closed [] messages
        → AllClosed h
        → AllClosed (on_text service tools messages o h).1
    unfolding on_text
    on_text-AllClosed messages (some j) h k a = a
    on_text-AllClosed messages none h k a = chat_json-AllClosed messages h k a

    -- What a round leaves: requests that are closed, and a conversation that is.
    abbrev NextClosed : Next J → Type 0
    NextClosed (done r) = AllClosed r.1
    NextClosed (more msgs h) = Closed [] msgs × AllClosed h

    next_of-Closed :
        (messages : List (Message J)) (left : ℕ) (msgs : List (Message J)) (c : Chat J)
        (h : History J)
        → Closed [] messages
        → Closed [] msgs
        → AllClosed h
        → NextClosed (next_of service tools messages left msgs c h)
    unfolding next_of
    next_of-Closed messages left msgs (raised f) h m k a = on_failure-AllClosed left f msgs h k a
    next_of-Closed messages left msgs (chatted t []) h m k a =
        on_text-AllClosed messages (parsed service t) h m a
    next_of-Closed messages left msgs (chatted t (c ∷ cs)) h m k a =
        elim (Option-cases (structured service tools (c ∷ cs))) [
          | inl n ↦ rw (n, next_of) (extended-Closed msgs t (c ∷ cs) k, a)
          | inr (j, s) ↦ rw (s, next_of) a
        ]

    after_round-AllClosed :
        (messages : List (Message J)) (left : ℕ) (n : Next J)
        → ((msgs : List (Message J)) (h : History J)
            → Closed [] msgs
            → AllClosed h
            → AllClosed (rounds service tools messages left msgs h).1)
        → NextClosed n
        → AllClosed
            (elim n as (λ x. Outcome J × History J) [
              | done r ↦ r
              | more msgs' h' ↦ rounds service tools messages left msgs' h'
            ]).1
    after_round-AllClosed messages left (done r) ih c = c
    after_round-AllClosed messages left (more msgs' h') ih c = ih msgs' h' c.0 c.1

    rounds-AllClosed :
        (messages : List (Message J)) (left : ℕ) (msgs : List (Message J)) (h : History J)
        → Closed [] messages
        → Closed [] msgs
        → AllClosed h
        → AllClosed (rounds service tools messages left msgs h).1
    unfolding rounds round chat
    rounds-AllClosed messages zero msgs h m k a = chat_json-AllClosed messages h m a
    rounds-AllClosed messages (suc left) msgs h m k a =
        let r = chat service (choice service tools left) msgs h in
        after_round-AllClosed messages left (next_of service tools messages left msgs r.0 r.1)
          (λ (msgs' : List (Message J)) (h' : History J) k' a'.
            rounds-AllClosed messages left msgs' h' m k' a')
          (next_of-Closed messages left msgs r.0 r.1 m k (k, a))

    -- Where the first conversation answers each of its tool calls, every request of a decision with
    -- tools does, whatever the service answers and the tools do: each call has one reply, with its
    -- id and name, in order and before anything else is said.
    pub chat_react-AllClosed :
        (max_iterations : ℕ) (messages : List (Message J))
        → Closed [] messages
        → AllClosed (chat_react service tools max_iterations messages []).1
    unfolding chat_react
    chat_react-AllClosed max_iterations messages m =
        rounds-AllClosed messages max_iterations messages [] m m tt
