-- ===== src/Transport.antt =====
-- core/transport/src/lib.rs: the transport contract, and the platform around it.
pub mod Trace
pub mod Favoured
pub mod Types
pub mod Platform
pub mod Context
pub mod Dns
pub mod Calls
