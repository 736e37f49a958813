-- ===== src/Network.antt =====
-- src/ocrd_network: the state that the Processing Server keeps, and its handlers.
pub mod Jobs
pub mod Database
pub mod Pages
pub mod LockedPages
pub mod Requests
pub mod Server
