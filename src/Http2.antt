-- ===== src/Http2.antt =====
-- jequi/src/http2: frames, the streams that they open, and the responses.
pub mod Frame
pub mod Response
pub mod Streams
pub mod Connection
pub mod Loop
