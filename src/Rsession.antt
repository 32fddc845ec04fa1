-- ===== src/Rsession.antt =====
-- rsession/: the session protocol of routable GOOSE and sampled values.
pub mod Keys
pub mod Spdu
pub mod Replay
pub mod Session
mod Tests
