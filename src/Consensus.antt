-- ===== src/Consensus.antt =====
-- modules/consensus: the consensus set, of a release build: its database (Store), the diffs of a
-- block (Diffs), the checks on a transaction (Valid) and its application (Apply).
pub mod Chain
pub mod Store
pub mod Diffs
pub mod Apply
pub mod Valid
pub mod BlockValid
pub mod Maintenance
pub mod Supply
pub mod Revert
pub mod Tests
