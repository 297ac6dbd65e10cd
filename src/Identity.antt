-- ===== src/Identity.antt =====
-- packages/identity/src: foreign spellings of tags resolved to the assets of the model.
pub mod Normalize
pub mod Boundary
pub mod Distance
pub mod AnatomyKey
pub mod Build
pub mod Tiers
pub mod Resolve
pub mod Kinds
pub mod Batch
pub mod Ladder
pub mod Chosen
pub mod Universe
pub mod OwnTag
mod Tests
