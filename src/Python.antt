-- ===== src/Python.antt =====
-- src/bindings/python: how results go back to an event loop, and how the engine is configured.
pub mod Batcher
pub mod Registry
pub mod Configure
