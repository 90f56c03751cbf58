-- ===== src/Judgement.antt =====
-- intelligence-layer/src/core: what weighs an alert before it is judged, reputation and baselines, and the
-- labels that decisions get afterwards.
pub mod Reputation
pub mod Traffic
pub mod Labels
