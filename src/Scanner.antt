-- ===== src/Scanner.antt =====
-- The workspace scanner's asynchronous jobs: apps/cli/internal/scanner.
pub mod Progress
mod Tests
