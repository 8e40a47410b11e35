-- ===== src/Providers.antt =====
-- apps/cli/internal/providers: the installers of the Doc Agent, by the types of providers.go.
pub mod Fence
pub mod Types
pub mod Symlinks
pub mod Files
pub mod Receipts
pub mod Lifecycle
pub mod Claude
mod Tests
