-- ===== src/Ssm.antt =====
-- packages/ssm-compiler/src: the parent ladder, the boundary fold, the snapshot and its orders.
pub mod Order
pub mod Fold
pub mod Ladder
pub mod Resolve
pub mod ReviewKey
pub mod Cycles
pub mod Snapshot
pub mod Tree
pub mod Plant
mod Tests
mod SnapshotTests
