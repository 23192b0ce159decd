-- ===== src/StaticFiles.antt =====
-- plugins/jequi_serve_static: a request for a file. `fs_read` is `std::fs::read`, a parameter.
pub mod ContentType
pub mod Config
pub mod Handle
pub mod Traversal
pub mod Outcome
pub mod Plugin
