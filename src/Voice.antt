-- ===== src/Voice.antt =====
-- Voice commands: apps/cli/internal/voice.
pub mod Intent
pub mod Pipeline
mod Tests
