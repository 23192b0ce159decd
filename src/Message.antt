-- ===== src/Message.antt =====
-- Requests and responses: jequi/src/body.rs, request.rs and response.rs.
pub mod Body
pub mod Uri
pub mod Request
pub mod Response
pub mod Hijack
