-- ===== src/Agent.antt =====
-- intelligence-layer/src/agent: the decision pipeline. Logging, tracing and the audit dictionary
-- `safety_checks` are left out. What the code awaits from outside (LLM, cache, clock, backend) is
-- the record `Env`; an exception is an error text.
pub mod Intent
pub mod Enforce
pub mod Process
pub mod Safety
pub mod Outcomes
pub mod Rebind
pub mod Consistency
pub mod Cache
pub mod Llm
pub mod Tools
