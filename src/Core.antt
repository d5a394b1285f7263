-- ===== src/Core.antt =====
-- src/core: the platform-neutral engine.
pub mod Result
pub mod FileMode
pub mod FileState
pub mod BufferPool
pub mod Buffer
pub mod Completion
pub mod Lifecycle
pub mod Config
pub mod Registry
pub mod Request
pub mod Backend
pub mod Pool
