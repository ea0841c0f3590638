-- ===== src/Metric.antt =====
-- relayer/metric: what the relayer reports about itself.
pub mod Recorder
pub mod Collector
