-- ===== src/Plugins.antt =====
-- plugins/src/lib.rs: the macros that number the plugins and load them.
pub mod Macros
pub mod Loaded
