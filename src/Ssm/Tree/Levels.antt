-- ===== src/Ssm/Tree/Levels.antt =====
-- packages/ssm-compiler/src/tree.ts: filing the roots by their level paths, and `freeze`.
use matchline.Base.{
  List, [], ◌∷◌, ◌++◌, Option, none, some, if◌then◌else◌, ◌==◌, Text, text_eq, compare_text,
  Ordering, Map, get,
}
use matchline.Domain.Snapshot.{ResolvedAssetNode, LevelValue}
use matchline.Ssm.Fold.{no_value_group_label}
use matchline.Ssm.Tree.{
  HierarchyAssetNode, HierarchyLevelNode, level_node, LevelBucket, bucket, LevelBuckets, no_buckets,
  then_bucket, LevelNodes, no_levels, then_level, trees_of,
}

-- `step.value === '' ? NO_VALUE_GROUP : step.value`
abbrev pub title_of : Text → Text
title_of [] = no_value_group_label
title_of (c ∷ s) = c ∷ s

abbrev pub bucket_value : LevelBucket → Text
bucket_value (bucket level_id value levels assets) = value

abbrev pub new_bucket : Text → Text → LevelBucket
new_bucket level_id value = bucket level_id value no_buckets []

-- The bucket of a value, an old or a new one, with what `f` makes of it.
unfoldable pub in_bucket : Text → Text → (LevelBucket → LevelBucket) → LevelBuckets → LevelBuckets
in_bucket level_id value f no_buckets = then_bucket (f (new_bucket level_id value)) no_buckets
in_bucket level_id value f (then_bucket b level) =
    if bucket_value b == value
    then then_bucket (f b) level
    else then_bucket b (in_bucket level_id value f level)

-- The rest of the loop over a level path, and the asset that is filed at its end.
unfoldable pub file_in : List LevelValue → Text → LevelBucket → LevelBucket
unfolding in_bucket
file_in [] asset_id (bucket level_id value levels assets) =
    bucket level_id value levels (assets ++ asset_id ∷ [])
file_in (step ∷ path) asset_id (bucket level_id value levels assets) =
    bucket level_id value
      (in_bucket step.level_id (title_of step.value) (file_in path asset_id) levels) assets

-- `let bucket` starts undefined, and stays so for an empty path.
unfoldable pub file_asset : List LevelValue → Text → LevelBuckets → LevelBuckets
unfolding file_in
file_asset [] asset_id top = top
file_asset (step ∷ path) asset_id top =
    in_bucket step.level_id (title_of step.value) (file_in path asset_id) top

abbrev pub file_node : Text → Option ResolvedAssetNode → LevelBuckets → LevelBuckets
file_node asset_id none top = top
file_node asset_id (some node) top = file_asset node.level_path asset_id top

unfoldable pub file_all : Map Text ResolvedAssetNode → List Text → LevelBuckets → LevelBuckets
unfolding file_asset
file_all nodes [] top = top
file_all nodes (asset_id ∷ roots) top =
    file_all nodes roots (file_node asset_id (get nodes asset_id) top)

abbrev level_value : HierarchyLevelNode → Text
level_value (level_node level_id value _ _) = value

-- The sort by value; a frozen bucket has the value that the bucket had.
unfoldable pub insert_level : HierarchyLevelNode → LevelNodes → LevelNodes
unfolding compare_text
insert_level l no_levels = then_level l no_levels
insert_level l (then_level m ms) = elim (compare_text (level_value l) (level_value m)) [
  | Ordering.gt ↦ then_level m (insert_level l ms)
  | _ ↦ then_level l (then_level m ms)
]

unfoldable mutual
  unfolding insert_level trees_of

  pub freeze : Map Text HierarchyAssetNode → LevelBucket → HierarchyLevelNode
  freeze built (bucket level_id value levels assets) =
      level_node level_id value (freeze_all built levels) (trees_of built assets)

  pub freeze_all : Map Text HierarchyAssetNode → LevelBuckets → LevelNodes
  freeze_all built no_buckets = no_levels
  freeze_all built (then_bucket b level) = insert_level (freeze built b) (freeze_all built level)
