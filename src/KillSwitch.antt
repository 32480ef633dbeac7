-- ===== src/KillSwitch.antt =====
-- core/killswitch: the kill switch, its connection controller and the firewall behind it.
pub mod Machine
pub mod Controller
pub mod Nftables
pub mod Connection
