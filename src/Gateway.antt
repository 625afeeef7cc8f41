-- ===== src/Gateway.antt =====
-- services/gateway/src: the middlewares of the gateway.
pub mod Security
pub mod Auth
pub mod Errors
pub mod Resilience
pub mod Correlation
pub mod Proxy
pub mod App
