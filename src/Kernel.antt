-- ===== src/Kernel.antt =====
-- kernel/: the tool registry and the operations.
pub mod Registry
pub mod Operations
