-- ===== src/Consensus/Revert.antt =====
pub mod View
pub mod Undo
pub mod Kinds
pub mod Fits
pub mod Node
pub mod Block
pub mod Undone
pub mod Tests
