-- ===== src/Examples.antt =====
-- The theorems at concrete inputs.
mod Network
mod Agent
mod Gateway
mod Pipeline
mod Judgement
mod Audit
mod Dispatch
mod Consistency
mod Netconf
mod Rest
mod Llm
mod Stream
mod Gnmi
mod Tools
mod Labels
mod System
