-- ===== src/Tunnel.antt =====
-- tunnel/src: the tunnel that looks like TLS.
pub mod Totp
pub mod Snowy
pub mod Handshake
pub mod Fingerprint
pub mod Connect
