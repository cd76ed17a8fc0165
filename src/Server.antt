-- ===== src/Server.antt =====
-- The HTTP server around the engine.
pub mod Service
pub mod Http
pub mod Store
pub mod Layer
pub mod State
pub mod Hmac
pub mod Routes
pub mod App
pub mod Config
pub mod Tasks
pub mod Boot
pub mod Examples
