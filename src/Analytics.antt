-- ===== src/Analytics.antt =====
-- The events that the daemon counts: apps/cli/internal/analytics.
pub mod Events
pub mod Collector
mod Tests
