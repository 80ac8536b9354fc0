-- ===== src/Session.antt =====
-- shuttle/src/session: the framed protocol of reusable sessions.
pub mod Frame
pub mod Lifecycle
pub mod Stream
pub mod Negotiate
pub mod Keepalive
