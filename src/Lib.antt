-- ===== src/Lib.antt =====
-- The control plane of a zero-trust datacenter. An intrusion detector raises alerts; the
-- intelligence layer (intelligence-layer/src) filters them, asks an LLM for a policy decision and
-- puts the decision through safety layers; what is left, a DROP rule, goes to the SDN controller,
-- from there to the secure framework (secure-framework), which checks the client's role and writes
-- the rule at the LEAF switch of its zone.
--
-- Which file models which part:
--   Base       lists, options, texts as code points, dictionaries in insertion order, integers
--   Net        the part of Python's `ipaddress` that the code calls; Net.Dotted and Net.Prefix have
--              the lemmas on dotted quads, with and without a prefix length
--   Topology   intelligence-layer/src/core/topology.py
--   Models     intelligence-layer/src/models/alert.py and decision.py
--   Policy     intelligence-layer/src/core/policy.py; Policy.Sids: core/knowledge.py
--   Safety     intelligence-layer/src/agent/safety: Guardrails, Confidence, Validators,
--              RateLimiter, CircuitBreaker, a module for each file
--   Agent      Intent: the model and its validator in models/decision.py, `node_decide_policy`,
--              `rebind_cached_intent`; Cache: the rest of agent/response_cache.py; Enforce:
--              `_enforce` of agent/graph.py; Process: `process`
--              of agent/graph.py with the nodes of agent/nodes.py; Consistency: the vote of
--              agent/safety/consistency.py and semantic_uncertainty.py; Llm: the client of
--              agent/llm/openai_compat.py, with React, its rounds of tool calls; Tools:
--              agent/tools.py, with Query, Incidents, Impact and Prefetch
--   Gateway    Roles and Session: secure-framework/sam; Pool: nos_gnmi_pool.py; Adapter:
--              netconf_gnmi_adapter.py; Netconf: netconf/netconf_session.py, the framing of messages
--              and, in Run, the loop of a session;
--              Rest: sam/role_api.py, the handlers of rules and policies;
--              Gnmi: gnmi/gnmiclient.py, the client of a SONiC switch, with Acl, its rules
--   Enforcement  intelligence-layer/src/enforcement/ids_agent_proxy.py and the handler of
--              ids-agent/main.go; System: the way of an alert from the graph to the devices
--   Pipeline   intelligence-layer/src/pipeline: Aggregator, Window, Gate; Classifier:
--              llama_batch_classifier.py; Dispatcher: flow_batch_dispatcher.py; Consumer:
--              consumer.py, with Polling
--   Audit      secure-framework/tamper_logger.py, the log of who changed what: Entry, Relevance,
--              Logger (with Runs and Restart), Queries, Report
--   Judgement  Reputation: core/asset_reputation.py; Traffic: core/baselines.py; Labels:
--              storage/incident_memory.py
--   Examples   the theorems at concrete inputs
--
-- State is passed explicitly: a method that runs under a lock is one step from a record to a
-- record, with the clock as an argument. Exceptions and early returns are values. Times are
-- microseconds where a file does not say otherwise, confidence is in millionths, scores of
-- reputation in hundredths. Fuel: the decimal printing of a number takes the number's successor, the
-- attempts of an LLM call are counted by the code, and
-- the joining of the chunks of a NETCONF message, which in the code can run for ever, takes a number
-- of rounds and tells when they are used up, as does the loop of a NETCONF session, whose rounds are
-- the caller's.
--
-- Parameters, since their code is not in the repository: the digest of SHA-256 and the HMAC, json's
-- dumps and loads, the answers of the LLM, the cache, the backend, Redis and Neo4j, the embedding of
-- a text and the similarity and order that pgvector gives, the gNMI client's answers, the XML search,
-- the order of a set, the entropy of a vote (a float), and what counts as a letter or a digit outside
-- of ASCII for the filter of queries. `str.lower`, `str.upper`, `isdigit` and `int` are those of ASCII
-- text. Each call at a device is one step, and a set call that raises is taken as not applied.
--
-- Not modelled: prompts, tracing and console output, the second LLM call (audit fields only), the
-- rest of storage (the labels of incidents and the search by embedding are modelled), the knowledge
-- parser, the web framework's routes, the front end, experiments and the virtual machines' setup.
pub mod Base
pub mod Net
pub mod Topology
pub mod Models
pub mod Policy
pub mod Safety
pub mod Agent
pub mod Audit
pub mod Gateway
pub mod Enforcement
pub mod Pipeline
pub mod Judgement
mod Examples
