-- ===== src/Safety.antt =====
-- intelligence-layer/src/agent/safety: the layers between a decision of the LLM and the network.
pub mod Guardrails
pub mod Confidence
pub mod Validators
pub mod RateLimiter
pub mod CircuitBreaker
