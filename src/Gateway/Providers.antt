-- ===== src/Gateway/Providers.antt =====
-- packages/gateway/src/gateway/providers: the adapters of the gateway.
pub mod Http
pub mod OpenAi
pub mod Anthropic
pub mod Mock
pub mod Errors
pub mod Retries
