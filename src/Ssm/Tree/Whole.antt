-- ===== src/Ssm/Tree/Whole.antt =====
-- packages/ssm-compiler/src/tree.ts, `hierarchyTree`.
use matchline.Base.{ℕ, zero, suc, List, [], Text, text_eq, compare_text, length, sort, Map}
use matchline.Domain.Ladder.{HierarchyConfig}
use matchline.Domain.Snapshot.{ResolvedAssetNode, ResolvedSnapshot}
use matchline.Ssm.Fold.{CompileSubject}
use matchline.Ssm.Tree.{
  HierarchyAssetNode, HierarchyTree, no_levels, no_assets, no_buckets, trees_of, placeable_from,
  Sorting, sort_all, sort_siblings, Growing, grow_roots, grow_asset,
}
use matchline.Ssm.Tree.Levels.{file_all, freeze_all}

unfoldable pub placeable_ids : Map Text ResolvedAssetNode → List CompileSubject → List Text
unfolding placeable_from
placeable_ids nodes subjects = placeable_from nodes [] subjects

unfoldable pub sorting_of : Map Text ResolvedAssetNode → List CompileSubject → Sorting
unfolding placeable_ids sort_all compare_text
sorting_of nodes subjects =
    sort_all nodes (placeable_ids nodes subjects) (sort compare_text (placeable_ids nodes subjects))
      (record { children_of = []; roots = [] })

unfoldable pub growing_of : Map Text ResolvedAssetNode → Sorting → Growing
unfolding grow_roots grow_asset sort_siblings
growing_of nodes s =
    grow_roots (grow_asset nodes (sort_siblings s.children_of) (suc (length nodes))) s.roots
      (record { built = []; guard = [] })

-- The return of `hierarchyTree`, without levels and with them.
unfoldable pub arranged :
    Map Text ResolvedAssetNode
    → List Text
    → Map Text HierarchyAssetNode
    → (levels : ℕ) → HierarchyTree
unfolding trees_of file_all freeze_all
arranged nodes roots built zero = record { levels = no_levels; assets = trees_of built roots }
arranged nodes roots built (suc n) = record {
  levels = freeze_all built (file_all nodes roots no_buckets);
  assets = no_assets;
}

unfoldable pub hierarchy_tree :
    ResolvedSnapshot → HierarchyConfig → List CompileSubject → HierarchyTree
unfolding sorting_of growing_of arranged
hierarchy_tree snapshot hierarchy subjects =
    let s : Sorting = sorting_of snapshot.nodes subjects in
    arranged snapshot.nodes s.roots (growing_of snapshot.nodes s).built (length hierarchy.levels)
