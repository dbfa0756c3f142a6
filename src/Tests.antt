-- ===== src/Tests.antt =====
-- Runs of the model on small inputs, and each theorem at one of them.
pub mod Samples
pub mod Ports
pub mod Tunnels
pub mod Connections
pub mod Dashboard
pub mod Polls
pub mod Discoveries
pub mod Dials
pub mod Screen
pub mod Traffic
pub mod Races
pub mod Commands
pub mod Life
pub mod Programs
