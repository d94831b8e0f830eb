-- ===== src/Mm.antt =====
-- The memory manager, KaushOS/kern/mm.
pub mod Pool
pub mod Pages
pub mod Boot
pub mod Ptes
pub mod Temp
