-- ===== src/Gateway.antt =====
-- The downstream API: internal/app/handlers_gateway.go and internal/app/streaming.go.
pub mod Api
pub mod Messages
pub mod Access
pub mod Proxy
pub mod Stream
pub mod Chat
