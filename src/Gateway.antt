-- ===== src/Gateway.antt =====
-- internal/gateway/gateway.go: the gateway, by the parts of the system that it changes.
pub mod Hosts
pub mod Resolv
pub mod Children
pub mod Reload
pub mod Query
pub mod Socks5
pub mod Connectivity
pub mod Engines
pub mod Life
pub mod Routing
pub mod Polls
pub mod Samples
mod Tests
