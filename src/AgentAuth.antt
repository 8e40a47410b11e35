-- ===== src/AgentAuth.antt =====
-- Authentication of agent requests: apps/cli/internal/agentauth.
pub mod Lru
pub mod Nonce
pub mod RateLimit
pub mod Signing
pub mod KeyStore
pub mod Middleware
pub mod Jwt
mod Tests
mod Requests
