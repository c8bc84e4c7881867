-- ===== src/Http.antt =====
-- `HTTPHandler` (haarp/httphandler.cpp), the messages that the connections to the browser and to
-- the server read from their sockets.
pub mod Hex
pub mod Chunk
pub mod Header
pub mod Lines
