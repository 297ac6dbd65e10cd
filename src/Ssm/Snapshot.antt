-- ===== src/Ssm/Snapshot.antt =====
-- packages/ssm-compiler/src/compile.ts, `compileSnapshot`, and its input (types.ts).
pub mod Nodes
pub mod Breaking
pub mod Parents
pub mod Acyclic
pub mod Boundaries
pub mod Raised
pub mod Statuses
pub mod Deduped
pub mod Items
use matchline.Base.{
  ℕ, zero, suc, ◌+◌, Bool, true, false, ◌||◌, List, [], ◌∷◌, ◌++◌, Option, none, some,
  if◌then◌else◌, ◌==◌, Text, text_eq, compare_text, Map, get, has, put, put_new, keys, values,
  length, add, sort,
}
use matchline.Domain.Ladder.{ParentLadderConfig, HierarchyConfig}
use matchline.Domain.Claim.{SsmRelationshipClaim}
use matchline.Domain.Review.{ReviewItem}
use matchline.Domain.Snapshot.{
  Status, resolved, root, provisional_root, unresolved, ResolvedAssetNode, SnapshotStats,
  ResolvedSnapshot,
}
use matchline.Relate.Mapping.{MakeRootDirective}
use matchline.Ssm.Fold.{CompileSubject}
use matchline.Ssm.Ladder.{default_ladder, WalkContext}
use matchline.Ssm.Resolve.{SubjectResolution, resolve_subject}
use matchline.Ssm.ReviewKey.{review_key, compare_review_items}
use matchline.Ssm.Cycles.{find_cycles, weakest_member, downgrade}

pub record CompileClaims : Type 0 where
  pub structural : List SsmRelationshipClaim
  pub dependencies : List SsmRelationshipClaim
  pub make_root : List MakeRootDirective

pub record CompileInput : Type 0 where
  pub subjects : List CompileSubject
  pub claims : CompileClaims
  pub ladder : Option ParentLadderConfig
  pub hierarchy : HierarchyConfig

-- The loop that fills `subjectById`: the first asset of an id counts.
unfoldable pub index_subjects :
    Map Text CompileSubject → List CompileSubject → Map Text CompileSubject
index_subjects by_id [] = by_id
index_subjects by_id (s ∷ subjects) = index_subjects (put_new by_id s.asset_id s) subjects

abbrev pub grouped :
    Option (List SsmRelationshipClaim) → SsmRelationshipClaim → List SsmRelationshipClaim
grouped none claim = claim ∷ []
grouped (some existing) claim = existing ++ claim ∷ []

-- The loops that fill `structuralBySubject` and `dependenciesBySubject`.
unfoldable pub group_claims :
    Map Text (List SsmRelationshipClaim)
    → List SsmRelationshipClaim
    → Map Text (List SsmRelationshipClaim)
group_claims by_subject [] = by_subject
group_claims by_subject (c ∷ claims) =
    group_claims (put by_subject c.subject_asset_id (grouped (get by_subject c.subject_asset_id) c))
      claims

-- The loop that fills `makeRootIds`.
unfoldable pub collect_roots :
    Map Text CompileSubject → List Text → List MakeRootDirective → List Text
collect_roots by_id roots [] = roots
collect_roots by_id roots (d ∷ directives) =
    collect_roots by_id (if has by_id d.child_asset_id then add roots d.child_asset_id else roots)
      directives

abbrev pub ladder_of : Option ParentLadderConfig → ParentLadderConfig
ladder_of none = default_ladder
ladder_of (some ladder) = ladder

abbrev pub subject_index : CompileInput → Map Text CompileSubject
subject_index input = index_subjects [] input.subjects

abbrev pub ordered_ids : CompileInput → List Text
ordered_ids input = sort compare_text (keys (subject_index input))

abbrev pub context_of : CompileInput → WalkContext
context_of input = record {
  subject_by_id = subject_index input;
  ladder = ladder_of input.ladder;
  hierarchy = input.hierarchy;
  structural_by_subject = group_claims [] input.claims.structural;
  dependencies_by_subject = group_claims [] input.claims.dependencies;
  make_root_ids = collect_roots (subject_index input) [] input.claims.make_root;
}

-- The variables that the two loops over the assets and the cycles write.
pub record Building : Type 0 where
  pub nodes : Map Text ResolvedAssetNode
  pub review_items : List ReviewItem
  pub demoted_to_dependency_count : ℕ

-- The body of the loop over `orderedIds`.
abbrev pub resolve_next : WalkContext → Building → Text → Option CompileSubject → Building
resolve_next ctx b asset_id none = b
resolve_next ctx b asset_id (some subject) = record {
  nodes = put b.nodes asset_id (resolve_subject subject ctx).node;
  review_items = b.review_items ++ (resolve_subject subject ctx).review_items;
  demoted_to_dependency_count =
      b.demoted_to_dependency_count + (resolve_subject subject ctx).demotion_count;
}

unfoldable pub resolve_all : WalkContext → Building → List Text → Building
resolve_all ctx b [] = b
resolve_all ctx b (asset_id ∷ ids) =
    resolve_all ctx (resolve_next ctx b asset_id (get ctx.subject_by_id asset_id)) ids

-- What breaking one cycle writes into `nodes`.
unfoldable pub break_cycle :
    ParentLadderConfig → Map Text ResolvedAssetNode → List Text → Map Text ResolvedAssetNode
break_cycle ladder nodes cycle = elim (weakest_member cycle nodes ladder) [
  | none ↦ nodes
  | some weakest ↦ elim (get nodes weakest) [
    | none ↦ nodes
    | some node ↦ put nodes weakest (downgrade node ladder)
  ]
]

-- The body of the loop over the cycles.
abbrev pub break_next : ParentLadderConfig → Building → List Text → Building
break_next ladder b cycle = record b {
  nodes = break_cycle ladder b.nodes cycle;
  review_items = b.review_items ++ ReviewItem.structural_cycle (sort compare_text cycle) ∷ [];
}

unfoldable pub break_cycles : ParentLadderConfig → Building → List (List Text) → Building
break_cycles ladder b [] = b
break_cycles ladder b (cycle ∷ cycles) = break_cycles ladder (break_next ladder b cycle) cycles

-- The loop that fills `deduped`.
unfoldable pub dedupe : Map Text ReviewItem → List ReviewItem → Map Text ReviewItem
dedupe deduped [] = deduped
dedupe deduped (item ∷ items) = dedupe (put_new deduped (review_key item) item) items

unfoldable pub final_review_items : List ReviewItem → List ReviewItem
final_review_items items = values (dedupe [] (sort compare_review_items items))

abbrev pub is_root : Status → Bool
is_root root = true
is_root provisional_root = true
is_root resolved = false
is_root unresolved = false

abbrev pub is_unresolved : Status → Bool
is_unresolved root = false
is_unresolved provisional_root = false
is_unresolved resolved = false
is_unresolved unresolved = true

unfoldable pub count_nodes : (Status → Bool) → Map Text ResolvedAssetNode → ℕ
count_nodes p [] = 0
count_nodes p ((asset_id, node) ∷ nodes) =
    if p node.parent.status then suc (count_nodes p nodes) else count_nodes p nodes

abbrev is_ambiguous : ReviewItem → Bool
is_ambiguous (ReviewItem.ambiguous_parent asset_id ladder_source ids) = true
is_ambiguous item = false

unfoldable pub count_ambiguous : List ReviewItem → ℕ
count_ambiguous [] = 0
count_ambiguous (item ∷ items) =
    if is_ambiguous item then suc (count_ambiguous items) else count_ambiguous items

abbrev pub no_nodes : Building
no_nodes = record { nodes = []; review_items = []; demoted_to_dependency_count = 0 }

-- `nodes` and the counters before cycles are looked for.
abbrev pub resolved_building : CompileInput → Building
resolved_building input = resolve_all (context_of input) no_nodes (ordered_ids input)

abbrev pub cycles_of : CompileInput → List (List Text)
cycles_of input = find_cycles (resolved_building input).nodes (ordered_ids input)

abbrev pub broken_building : CompileInput → Building
broken_building input =
    break_cycles (ladder_of input.ladder) (resolved_building input) (cycles_of input)

-- What `compileSnapshot` returns for the finished variables.
abbrev pub snapshot_of : Building → ℕ → ResolvedSnapshot
snapshot_of b cycle_count = record {
  nodes = b.nodes;
  review_items = final_review_items b.review_items;
  stats = record {
    node_count = length b.nodes;
    root_count = count_nodes is_root b.nodes;
    demoted_to_dependency_count = b.demoted_to_dependency_count;
    unresolved_count = count_nodes is_unresolved b.nodes;
    cycle_count = cycle_count;
    ambiguous_count = count_ambiguous (final_review_items b.review_items);
  };
}

unfoldable pub compile_snapshot : CompileInput → ResolvedSnapshot
compile_snapshot input = snapshot_of (broken_building input) (length (cycles_of input))
