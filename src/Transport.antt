-- ===== src/Transport.antt =====
-- internal/transport: the wire format of the tunnel connection.
pub mod Frame
pub mod Config
pub mod Conn
pub mod Reconnect
