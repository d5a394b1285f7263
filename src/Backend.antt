-- ===== src/Backend.antt =====
-- src/backend: what carries out reads and writes, and which of it a build has.
pub mod Thread
pub mod Uring
pub mod Iocp
pub mod Gcd
pub mod Builtin
