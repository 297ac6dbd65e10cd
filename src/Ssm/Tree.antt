-- ===== src/Ssm/Tree.antt =====
-- packages/ssm-compiler/src/tree.ts: the tree of a snapshot, by levels and below structural parents.
-- Recursive types that hold lists of themselves have those lists as types of their own.
pub mod Levels
pub mod Whole
pub mod Counts
pub mod Guard
pub mod Sorted
pub mod Filed
pub mod Leveled
pub mod Kept
pub mod Once
mod Tests
use matchline.Base.{
  ◌≡◌, ℕ, zero, suc, Bool, true, false, not, ◌||◌, List, [], ◌∷◌, ◌++◌, Option, none, some,
  if◌then◌else◌, ◌==◌, Text, text, text_eq, compare_text, Ordering, includes, length, sort, Map,
  get, has, put,
}
use matchline.Domain.Ladder.{HierarchyConfig}
use matchline.Domain.Snapshot.{
  Status, ResolvedDependency, ResolvedAssetNode, LevelValue, ResolvedSnapshot,
}
use matchline.Ssm.Fold.{CompileSubject, no_value_group_label}

mutual
  pub data HierarchyAssetNode : Type 0 where
    asset_node :
        (asset_id : Text) (status : Status) (parent_asset_id : Option Text) (children : AssetNodes)
        (dependencies : List ResolvedDependency)
        → HierarchyAssetNode

  pub data AssetNodes : Type 0 where
    no_assets : AssetNodes
    then_asset : HierarchyAssetNode → AssetNodes → AssetNodes

-- The lists `levels` and `assets` of a bucket; a map of buckets is a list of them, by their values.
mutual
  pub data LevelBucket : Type 0 where
    bucket : (level_id value : Text) (levels : LevelBuckets) (assets : List Text) → LevelBucket

  pub data LevelBuckets : Type 0 where
    no_buckets : LevelBuckets
    then_bucket : LevelBucket → LevelBuckets → LevelBuckets

mutual
  pub data HierarchyLevelNode : Type 0 where
    level_node :
        (level_id value : Text) (levels : LevelNodes) (assets : AssetNodes) → HierarchyLevelNode

  pub data LevelNodes : Type 0 where
    no_levels : LevelNodes
    then_level : HierarchyLevelNode → LevelNodes → LevelNodes

pub record HierarchyTree : Type 0 where
  pub levels : LevelNodes
  pub assets : AssetNodes

-- What `assetNode` returns, and the guard that it leaves.
pub record Grown : Type 0 where
  pub tree : Option HierarchyAssetNode
  pub guard : List Text

pub record GrownAll : Type 0 where
  pub trees : AssetNodes
  pub guard : List Text

-- `if (child !== null) { children.push(child) }`
abbrev pub with_tree : Option HierarchyAssetNode → AssetNodes → AssetNodes
with_tree none trees = trees
with_tree (some tree) trees = then_asset tree trees

-- The loop over the children, for the call of `assetNode`.
unfoldable pub grow_all : (Text → List Text → Grown) → List Text → List Text → GrownAll
grow_all grow [] guard = record { trees = no_assets; guard = guard }
grow_all grow (child_id ∷ ids) guard =
    let child : Grown = grow child_id guard in
    let rest : GrownAll = grow_all grow ids child.guard in
    record { trees = with_tree child.tree rest.trees; guard = rest.guard }

-- `childrenOf.get(assetId) ?? []`
abbrev or_childless : Option (List Text) → List Text
or_childless none = []
or_childless (some ids) = ids

abbrev pub children_at : Map Text (List Text) → Text → List Text
children_at children_of asset_id = or_childless (get children_of asset_id)

abbrev pub node_with : Text → ResolvedAssetNode → GrownAll → Grown
node_with asset_id node children = record {
  tree = some (
      asset_node asset_id node.parent.status node.parent.parent_asset_id children.trees
        node.dependencies);
  guard = children.guard;
}

module _ (nodes : Map Text ResolvedAssetNode) (children_of : Map Text (List Text)) where
  -- `assetNode`, on fuel: one unit for each asset on the way down.
  unfoldable pub grow_asset : ℕ → Text → List Text → Grown
  unfolding grow_all
  grow_asset zero asset_id guard = record { tree = none; guard = guard }
  grow_asset (suc fuel) asset_id guard =
      elim (if includes guard asset_id then none else get nodes asset_id) [
        | none ↦ record { tree = none; guard = guard }
        | some node ↦
            node_with asset_id node (
              grow_all (grow_asset fuel) (children_at children_of asset_id)
                (guard ++ asset_id ∷ []))
      ]

-- The loop over the subjects; `seen` and `placeable` hold the same.
unfoldable pub placeable_from :
    Map Text ResolvedAssetNode → List Text → List CompileSubject → List Text
placeable_from nodes seen [] = seen
placeable_from nodes seen (subject ∷ subjects) =
    placeable_from nodes
      (if includes seen subject.asset_id || not (has nodes subject.asset_id)
        then seen
        else seen ++ subject.asset_id ∷ [])
      subjects

-- `childrenOf` and `roots`.
pub record Sorting : Type 0 where
  pub children_of : Map Text (List Text)
  pub roots : List Text

abbrev pub rooted_at : Text → Sorting → Sorting
rooted_at asset_id s = record s { roots = s.roots ++ asset_id ∷ [] }

-- The branches on the parent.
abbrev pub sort_under : List Text → Text → Option Text → Sorting → Sorting
sort_under seen asset_id none s = rooted_at asset_id s
sort_under seen asset_id (some parent_id) s =
    if includes seen parent_id
    then record s {
      children_of =
          put s.children_of parent_id (children_at s.children_of parent_id ++ asset_id ∷ []);
    }
    else rooted_at asset_id s

abbrev pub sort_node : List Text → Text → Option ResolvedAssetNode → Sorting → Sorting
sort_node seen asset_id none s = s
sort_node seen asset_id (some node) s = sort_under seen asset_id node.parent.parent_asset_id s

unfoldable pub sort_all : Map Text ResolvedAssetNode → List Text → List Text → Sorting → Sorting
sort_all nodes seen [] s = s
sort_all nodes seen (asset_id ∷ ids) s =
    sort_all nodes seen ids (sort_node seen asset_id (get nodes asset_id) s)

-- `siblings.sort(compareText)` for each entry.
unfoldable pub sort_siblings : Map Text (List Text) → Map Text (List Text)
unfolding compare_text
sort_siblings [] = []
sort_siblings ((parent_id, siblings) ∷ m) =
    (parent_id, sort compare_text siblings) ∷ sort_siblings m

-- `built` and `guard`.
pub record Growing : Type 0 where
  pub built : Map Text HierarchyAssetNode
  pub guard : List Text

abbrev pub with_built :
    Text → Option HierarchyAssetNode → Map Text HierarchyAssetNode → Map Text HierarchyAssetNode
with_built asset_id none built = built
with_built asset_id (some tree) built = put built asset_id tree

unfoldable pub grow_roots : (Text → List Text → Grown) → List Text → Growing → Growing
grow_roots grow [] g = g
grow_roots grow (asset_id ∷ roots) g =
    let grown : Grown = grow asset_id g.guard in
    grow_roots grow roots
      (record { built = with_built asset_id grown.tree g.built; guard = grown.guard })

-- `.map((assetId) => built.get(assetId)).filter(…)`
unfoldable pub trees_of : Map Text HierarchyAssetNode → List Text → AssetNodes
trees_of built [] = no_assets
trees_of built (asset_id ∷ ids) = with_tree (get built asset_id) (trees_of built ids)
