-- ===== src/Http1.antt =====
-- jequi/src/http1: reading a request, writing a response, and a connection that does both.
pub mod Read
pub mod Heads
pub mod FirstLine
pub mod ReadBody
pub mod Write
pub mod Chunks
pub mod Connection
pub mod Scope
