-- ===== src/Discovery.antt =====
-- internal/discovery: the ports worth forwarding, from Docker, from the host, and from the user.
pub mod Types
pub mod Ports
pub mod Static
pub mod Host
pub mod Docker
