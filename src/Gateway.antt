-- ===== src/Gateway.antt =====
-- packages/gateway/src/gateway: which model serves a request, and the fallback to a second one.
pub mod Types
pub mod Config
pub mod Policies
pub mod Router
pub mod Routes
pub mod Fallback
pub mod Providers
