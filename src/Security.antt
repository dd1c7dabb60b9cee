-- ===== src/Security.antt =====
-- The security service, services/securityd.
pub mod Audit
pub mod Authz
pub mod Firewall
pub mod Nftables
pub mod Service
mod Samples
