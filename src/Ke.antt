-- ===== src/Ke.antt =====
-- The kernel proper, KaushOS/kern/ke.
pub mod Dispatcher
pub mod Wait
pub mod Dpc
pub mod Locks
