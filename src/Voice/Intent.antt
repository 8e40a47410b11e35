-- ===== src/Voice/Intent.antt =====
-- voice/intent.go: a transcript told as a command.
pub mod Distance
pub mod Rules
pub mod Grades
pub mod Parse
