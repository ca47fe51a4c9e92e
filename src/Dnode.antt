-- ===== src/Dnode.antt =====
-- The packages under dnode/.
pub mod Callbacks
pub mod Scrub
pub mod Unscrub
