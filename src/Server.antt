-- ===== src/Server.antt =====
-- What the parts of the server share: plugins, and the request handling of jequi/src/request.rs.
pub mod Plugin
pub mod Handle
pub mod Chain
pub mod Negotiate
pub mod Tls
pub mod RawStream
pub mod Process
pub mod Serve
