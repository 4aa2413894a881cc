-- ===== src/Tests.antt =====
-- The theorems at concrete inputs.
mod Data
mod Coordinator
mod Networks
mod Agents
mod Firewall
mod Daemon
mod Devices
