-- ===== src/Lib.antt =====
-- Matchline: verification of the compiler that turns relationship claims about plant assets into
-- one hierarchy.
--
-- The program. Evidence about assets (a 3D model, spreadsheets, manual instructions) becomes
-- claims: "this asset hangs under that one, says this rung of the ladder". packages/identity finds
-- the asset that a foreign spelling of a tag means, with packages/tag-anatomy, which takes tags
-- apart. packages/electrical-flow draws the graph of what feeds what, whose nodes are those
-- assets and the spellings that have none. packages/relationship-claims assembles the claims, and
-- packages/ssm-compiler resolves them: for each asset it walks the parent ladder, strongest rung
-- first, folds the parent that a rung names against the boundaries of the hierarchy (building,
-- system, ...), and writes a snapshot of nodes, from which cycles are removed, with the items that
-- a person has to review.
--
-- The files.
--   Base and its children: what the sources use of JavaScript. Strings are lists of UTF-16 code
--     units compared by code units (Texts), `Map` and `Set` keep insertion order (Maps, Lists),
--     `Array.prototype.sort` is a stable sort (Sort), comparators answer by an ordering (Orders).
--   Domain: the records and unions of packages/domain/src.
--   Relate: packages/relationship-claims/src. Mapping has the tables of mapping.ts; Types and
--     Order are types.ts and order.ts; Assemble, Tiers, Family and Output are assemble.ts: the
--     helpers, the bodies of the tiers 1-3, 6 and 7, those of tiers 4 and 5, and
--     `assembleRelationshipClaims`. The lists that it fills are the record `Assembly`. The tag
--     resolution that the caller passes is a field of the options, and the order of confidences
--     (numbers carried as text) a parameter.
--   Ssm/Order, Ssm/ReviewKey: packages/ssm-compiler/src/order.ts. `compareClaims` is
--     `compare_claims`, `reviewKey` is `review_key`.
--   Ssm/Fold: packages/ssm-compiler/src/fold.ts. `foldBoundaries` is `fold_boundaries`.
--   Ssm/Ladder, Ssm/Resolve: packages/ssm-compiler/src/compile.ts up to `resolveSubject`. The
--     local variables of `resolveSubject` are the record `Walk`, one pass of its loop is
--     `tier_turn`, which answers `next` for `continue` and `stop` for `break`; `walk` is the loop.
--   Ssm/Cycles: `findCycles`, `weakestMember` and `downgrade` of the same file. `climb` is the
--     `while` loop.
--   Ssm/Snapshot: `compileSnapshot`. `resolve_all` is its loop over the assets, `break_cycles`
--     its loop over the cycles.
--   Ssm/Tree: packages/ssm-compiler/src/tree.ts. `assetNode` is `grow_asset`, on the guard that it
--     is given; filing a root by its level path is `file_asset`.
--   Tags: packages/tag-anatomy/src, with tokens.ts, extract.ts, template.ts and anatomy.ts in
--     Tokens, Extract, Template and Anatomy. `pieces_of` stands for the matches of the placeholder
--     pattern.
--   Identity: packages/identity/src, one module for each file; resolve.ts is Tiers (the tiers
--     that can match) and Resolve (the ladder and batches). A tier's result and
--     `chooseCandidate`'s are one type.
--   Flow: packages/electrical-flow/src. Types, Order and Walk are the files of these names; Nodes,
--     Edges and Build are build.ts: `buildNodeDrafts`, `buildEdges`, `buildElectricalFlow`; Cycles
--     and Loops are cycles.ts: the components, and the name and the search of a loop. The variables
--     of `stronglyConnectedComponents` are the record `Tarjan`; stacks are lists from their tops.
--   Flow/Tests, Tags/Tests, Identity/Tests, Relate/Tests, Ssm/Plant, Ssm/Tests, Ssm/SnapshotTests,
--     Ssm/ReviewKey/Tests, Ssm/Tree/Tests: small plants, runs on them, and instances of the theorems.
--
-- Bounds and fuel. `climb` runs on one unit of fuel per node and one more, which is enough since a
-- path meets each asset once. Decimal digits run on the number itself. `grow_asset` has one unit
-- for each node and one more, since each step down puts an asset into the guard. The walk of a flow
-- has two units and one for each feed; the search of the components one for a root and two for each
-- arc; a loop is searched with one unit for each node of the component and one more, and its path
-- is climbed with one for each parent and one more. All other loops are over lists.
--
-- What is simplified. `===` on claims compares objects; the model tells the entries of a pool
-- apart by their place in it, so each entry is taken to be an object of its own. An absent field
-- and `undefined` are one value. A number that the code only prints is carried as the text
-- printed. Indices in a tag anatomy are natural numbers, so the tests for negative ones have no
-- counterpart. `toUpperCase` is a parameter of the tag normalization. The message texts of
-- packages/domain/src/review.ts, and those that a miss or a match carries for a reviewer, are left
-- out. The other packages and the desktop app are not modelled.
pub mod Base
pub mod Domain
pub mod Ssm
pub mod Relate
pub mod Tags
pub mod Identity
pub mod Flow
