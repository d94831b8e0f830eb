-- ===== src/Ob.antt =====
-- The object manager, KaushOS/kern/ob.
pub mod Object
pub mod Handle
pub mod Names
pub mod Create
