-- ===== src/Proxy.antt =====
-- The reverse proxy: gateway/app/proxy, but for the circuit breaker and the executor, which have
-- modules of their own.
pub mod Headers
pub mod Settings
pub mod Url
pub mod Route
mod Examples
