-- ===== src/Tests.antt =====
-- The theorems at concrete inputs.
pub mod Message
pub mod Config
pub mod Http1
pub mod Http2
pub mod StaticFiles
pub mod Server
pub mod Connection
pub mod Scope
pub mod Plugins
pub mod Proxy
pub mod Loop
pub mod Process
pub mod Api
pub mod Whole
pub mod Streams
pub mod Pipeline
