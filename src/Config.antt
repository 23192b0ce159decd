-- ===== src/Config.antt =====
-- jequi/src/config.rs: which configuration a request gets, and how the configurations are loaded.
pub mod Select
pub mod Longest
pub mod Load
pub mod Deserialize
