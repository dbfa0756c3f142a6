-- ===== src/Tunnel.antt =====
-- internal/tunnel: the local listeners, kept equal to what discovery reports.
pub mod Allocator
pub mod Forwarder
pub mod Connections
pub mod Manager
pub mod Probing
pub mod Sockets
