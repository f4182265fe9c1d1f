-- ===== src/XSocket.antt =====
-- src/XSocket: two ends of a WebSocket in one process, which talk through a queue of buffers.
pub mod LinkedList
pub mod Transport
pub mod Exchange
mod Examples
