-- ===== src/Dial.antt =====
-- internal/sshconn/dial.go: what a target's spec means, and how a connection to it is opened.
pub mod Target
pub mod HostKey
pub mod Connect
pub mod Keys
