-- ===== src/Server.antt =====
-- internal/server: the rules that the HTTP handlers put in front of the store.
pub mod Limits
pub mod Content
pub mod Handler
pub mod Json
pub mod Api
pub mod Admin
pub mod Middleware
pub mod Pages
pub mod Config
pub mod Auth
