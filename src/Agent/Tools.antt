-- ===== src/Agent/Tools.antt =====
-- intelligence-layer/src/agent/tools.py: what the LLM may ask for, and what is fetched for it before.
-- The schemas and descriptions of the tools are text.
pub mod Query
pub mod Incidents
pub mod Impact
pub mod Prefetch
