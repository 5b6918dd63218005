-- ===== src/Aggregator.antt =====
-- aggregator.py: the metrics that checks and StatsD clients send, rolled up between two flushes.
pub mod Number
pub mod Metric
pub mod State
pub mod Metrics
pub mod Buckets
pub mod Keywords
pub mod Packets
pub mod Events
pub mod ServiceChecks
pub mod Received
mod Tests
