-- ===== src/Ai.antt =====
-- Name generation by AI command line tools: apps/cli/internal/ai.
pub mod Jobs
mod Tests
