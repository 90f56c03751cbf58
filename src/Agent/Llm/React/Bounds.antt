-- ===== src/Agent/Llm/React/Bounds.antt =====
-- The number of requests that a decision costs.
use s_com_control_plane.Base.{
  Bool-cases, List, Option, Option-cases, [], arith, inl, inr, length, none, refl, some, suc, zero,
  ℕ, ◌+◌, ◌==◌, ◌∷◌, ◌≡◌, ◌≤◌,
}
use s_com_control_plane.Agent.Llm.{
  Message, Failure, status, bad_json, missing_key, no_valid_json, other, Chat, raised, chatted,
  Outcome, answer, raises, History, forced, chat, chat_json, fallback, after_chat, after_first,
  attempted, request_json, retried, parsed, Service,
}
use s_com_control_plane.Agent.Llm.React.{
  more, done, structured, choice, on_failure, on_text, rounds, chat_react, Tools, Next, next_of,
  round, done, more,
}

module _ {J : Type 0} (service : Service J) where
  -- At least `least` and at most `most` requests are sent.
  abbrev pub Sends : ℕ → ℕ → History J → Outcome J × History J → Type 0
  Sends least most h r = (length h + least ≤ length r.1) × (length r.1 ≤ length h + most)

  after_first-Sends :
      (msgs : List (Message J)) (o : Option (Outcome J)) (h : History J)
      → Sends 0 1 h (after_first service msgs o h)
  after_first-Sends msgs none h = omega arith
  after_first-Sends msgs (some (answer j)) h = omega arith
  after_first-Sends msgs (some (raises f)) h = elim (Bool-cases (retried service f)) [
    | inl again ↦ rw (again, after_first) (omega arith)
    | inr over ↦ rw (over, after_first) (omega arith)
  ]

  fallback-Sends : (msgs : List (Message J)) (h : History J) → Sends 1 2 h (fallback service msgs h)
  unfolding fallback
  fallback-Sends msgs h =
      let sent = request_json service msgs h in
      omega (arith, after_first-Sends msgs (attempted service (service.server sent)) sent)

  after_chat-Sends :
      (msgs : List (Message J)) (c : Chat J) (h : History J)
      → Sends 0 2 h (after_chat service msgs c h)
  unfolding after_chat
  after_chat-Sends msgs (raised (status n)) h = elim (Bool-cases (n == 400)) [
    | inl refused ↦ rw (refused, after_chat) (omega (arith, fallback-Sends msgs h))
    | inr not_refused ↦ rw (not_refused, after_chat) (omega arith)
  ]
  after_chat-Sends msgs (raised bad_json) h = omega arith
  after_chat-Sends msgs (raised missing_key) h = omega arith
  after_chat-Sends msgs (raised no_valid_json) h = omega arith
  after_chat-Sends msgs (raised (other t)) h = omega arith
  after_chat-Sends msgs (chatted t (c ∷ cs)) h = omega arith
  after_chat-Sends msgs (chatted t []) h = elim (Option-cases (service.loads t)) [
    | inl n ↦ rw (n, after_chat) (omega (arith, fallback-Sends msgs h))
    | inr (j, s) ↦ rw (s, after_chat) (omega arith)
  ]

  pub chat_json-Sends :
      (msgs : List (Message J)) (h : History J) → Sends 1 3 h (chat_json service msgs h)
  unfolding chat_json chat
  chat_json-Sends msgs h =
      let r = chat service forced msgs h in omega (arith, after_chat-Sends msgs r.0 r.1)

  module _ (tools : Tools J) where
    on_failure-Sends :
        (left : ℕ) (f : Failure) (msgs : List (Message J)) (h : History J)
        → Sends 0 3 h (on_failure service tools left f msgs h)
    unfolding on_failure
    on_failure-Sends zero (status n) msgs h = elim (Bool-cases (n == 400)) [
      | inl refused ↦ rw (refused, on_failure) (omega (arith, chat_json-Sends msgs h))
      | inr not_refused ↦ rw (not_refused, on_failure) (omega arith)
    ]
    on_failure-Sends (suc left) (status n) msgs h = omega arith
    on_failure-Sends zero bad_json msgs h = omega arith
    on_failure-Sends (suc left) bad_json msgs h = omega arith
    on_failure-Sends zero missing_key msgs h = omega arith
    on_failure-Sends (suc left) missing_key msgs h = omega arith
    on_failure-Sends zero no_valid_json msgs h = omega arith
    on_failure-Sends (suc left) no_valid_json msgs h = omega arith
    on_failure-Sends zero (other t) msgs h = omega arith
    on_failure-Sends (suc left) (other t) msgs h = omega arith

    on_text-Sends :
        (messages : List (Message J)) (o : Option J) (h : History J)
        → Sends 0 3 h (on_text service tools messages o h)
    unfolding on_text
    on_text-Sends messages (some j) h = omega arith
    on_text-Sends messages none h = omega (arith, chat_json-Sends messages h)

    -- A round that ends, after at most three more requests; one that goes on sends none after its own.
    abbrev NextSends : History J → Next J → Type 0
    NextSends h (done r) = Sends 0 3 h r
    NextSends h (more msgs h') = length h' ≡ length h

    next_of-Sends :
        (messages : List (Message J)) (left : ℕ) (msgs : List (Message J)) (c : Chat J)
        (h : History J)
        → NextSends h (next_of service tools messages left msgs c h)
    unfolding next_of
    next_of-Sends messages left msgs (raised f) h = on_failure-Sends left f msgs h
    next_of-Sends messages left msgs (chatted t []) h = on_text-Sends messages (parsed service t) h
    next_of-Sends messages left msgs (chatted t (c ∷ cs)) h =
        elim (Option-cases (structured service tools (c ∷ cs))) [
          | inl n ↦ rw (n, next_of) refl
          | inr (j, s) ↦ rw (s, next_of) (omega arith)
        ]

    after_round-Sends :
        (messages : List (Message J)) (left : ℕ) (h : History J) (n : Next J)
        → ((msgs : List (Message J)) (h : History J)
            → Sends 1 (left + 3) h (rounds service tools messages left msgs h))
        → NextSends h n
        → Sends 0
            (left + 3)
            h
            (elim n [ done r ↦ r | more msgs' h' ↦ rounds service tools messages left msgs' h' ])
    after_round-Sends messages left h (done r) ih s = omega arith
    after_round-Sends messages left h (more msgs' h') ih s = omega (arith, ih msgs' h')

    rounds-Sends :
        (messages : List (Message J)) (left : ℕ) (msgs : List (Message J)) (h : History J)
        → Sends 1 (left + 3) h (rounds service tools messages left msgs h)
    unfolding rounds round chat
    rounds-Sends messages zero msgs h = omega (arith, chat_json-Sends messages h)
    rounds-Sends messages (suc left) msgs h =
        let r = chat service (choice service tools left) msgs h in
        omega (
          arith,
          after_round-Sends messages left r.1 (next_of service tools messages left msgs r.0 r.1)
              (rounds-Sends messages left) (next_of-Sends messages left msgs r.0 r.1),
        )

    -- A decision with tools sends at least one request and at most three more than its rounds,
    -- whatever the service answers and the tools do.
    pub chat_react-Sends :
        (max_iterations : ℕ) (messages : List (Message J)) (h : History J)
        → Sends 1 (max_iterations + 3) h (chat_react service tools max_iterations messages h)
    unfolding chat_react
    chat_react-Sends max_iterations messages h = rounds-Sends messages max_iterations messages h
