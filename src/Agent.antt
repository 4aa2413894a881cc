-- ===== src/Agent.antt =====
-- internal/agent: the daemon of a node.
pub mod Probe
pub mod Lock
pub mod Filterspec
pub mod Iptables
pub mod Firewall
pub mod Compose
pub mod Dns
pub mod HostsFile
pub mod Publish
pub mod Rekey
pub mod Run
pub mod Wgdev
pub mod Report
pub mod LocalStatus
pub mod Advertise
