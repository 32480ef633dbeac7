-- ===== src/Linux.antt =====
-- core/transport/src/linux.rs: the Linux backends over the platform's command-line tools.
pub mod Tools
pub mod Commands
pub mod Backend
pub mod Dns
pub mod Gateway
pub mod Health
pub mod Node
pub mod Managed
