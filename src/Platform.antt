-- ===== src/Platform.antt =====
-- src/platform: the file primitives that the backends share.
pub mod NativeFile
pub mod OpenFlags
