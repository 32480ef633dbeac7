-- ===== src/Examples.antt =====
-- Tests of the definitions and instances of the theorems at concrete inputs.
pub mod Routing
pub mod KillSwitch
pub mod WireGuard
pub mod Linux
pub mod Connection
pub mod Client
