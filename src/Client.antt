-- ===== src/Client.antt =====
-- apps/linux-client: the Linux client, from its configuration file to the run of its connection.
pub mod Config
pub mod Settings
pub mod Lease
pub mod Validation
pub mod Run
pub mod Main
