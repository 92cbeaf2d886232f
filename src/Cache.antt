-- ===== src/Cache.antt =====
-- The caching subsystem (src/tortoise_extended/cache).
pub mod Key
pub mod Backend
pub mod Pool
pub mod Flight
pub mod Decorators
mod Tests
