-- ===== src/Relate.antt =====
-- packages/relationship-claims/src: how evidence becomes claims about pairs of assets.
pub mod Mapping
pub mod Types
pub mod Order
pub mod Assemble
pub mod Tiers
pub mod Family
pub mod Output
pub mod Pairs
pub mod StatedPairs
pub mod FamilyPairs
pub mod StatedClaims
pub mod Dedupe
pub mod Exclusive
pub mod OneRung
pub mod Accounts
pub mod Grades
pub mod Sound
mod Tests
