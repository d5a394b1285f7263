-- ===== src/Diagnostics.antt =====
-- src/diagnostics/yuyuko: the record of allocations that finds leaks and uses after free.
pub mod Souls
