-- ===== src/Proxy.antt =====
-- plugins/jequi_proxy/src/lib.rs.
pub mod Config
pub mod Handle
pub mod Forward
pub mod Query
