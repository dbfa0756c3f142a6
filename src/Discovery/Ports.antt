-- ===== src/Discovery/Ports.antt =====
-- internal/discovery/ports.go: the Ports column of `docker ps`.
pub mod Expand
pub mod Match
pub mod Parse
