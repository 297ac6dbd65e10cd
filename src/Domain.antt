-- ===== src/Domain.antt =====
-- packages/domain/src: the vocabulary that every engine package shares. Types and tables; the
-- children hold the relationship vocabulary, the hierarchy configuration, the review items and
-- the snapshot.
pub mod Ladder
pub mod Claim
pub mod Anatomy
pub mod Connectivity
pub mod Identity
pub mod Review
pub mod Snapshot
