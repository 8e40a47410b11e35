-- ===== src/History.antt =====
-- The structural diff of Markdown documents: apps/cli/internal/history.
pub mod Blocks
pub mod Changes
pub mod Myers
mod Tests
