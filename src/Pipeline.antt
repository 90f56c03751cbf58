-- ===== src/Pipeline.antt =====
-- intelligence-layer/src/pipeline: from flow records and alerts to what the agent sees.
pub mod Aggregator
pub mod Window
pub mod Gate
pub mod Classifier
pub mod Dispatcher
pub mod Consumer
