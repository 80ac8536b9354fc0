-- ===== src/Server.antt =====
-- shuttle/src/server: the server's side of a reusable session.
pub mod Address
pub mod Relay
pub mod SessionLoop
