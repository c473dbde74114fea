-- ===== src/Ws.antt =====
-- Websocket frames: src/web_server/websockets.tcc.
pub mod Bytes
pub mod Frame
pub mod Decode
pub mod Reassembly
pub mod Stream
mod Examples
