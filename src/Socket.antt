-- ===== src/Socket.antt =====
-- src/ws.rs: the WebSocket over which a client follows the board.
pub mod Frame
pub mod Handshake
pub mod Connection
mod Examples
