-- ===== src/Flow.antt =====
-- packages/electrical-flow/src: the graph of what feeds what, its loops, and the walk from source to load.
pub mod Types
pub mod Order
pub mod Nodes
pub mod Edges
pub mod Weights
pub mod Walk
pub mod Cycles
pub mod Loops
pub mod Build
mod Tests
