-- ===== src/WireGuard.antt =====
-- core/transport/src/wireguard.rs: WireGuard profiles, gateway policies and the adapter.
pub mod Profile
pub mod Validate
pub mod Networks
pub mod Accepted
pub mod Adapter
