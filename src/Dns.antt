-- ===== src/Dns.antt =====
-- internal/dns: names that are resolved through the SOCKS proxy.
pub mod Socks
mod Tests
