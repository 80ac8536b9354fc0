-- ===== src/Client.antt =====
-- shuttle/src/client: the client's side of a tunnel.
pub mod Pool
pub mod Plain
pub mod Preflighter
