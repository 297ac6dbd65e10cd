-- ===== src/Ssm/Tree/Counts.antt =====
-- packages/ssm-compiler/src/tree.ts, `assetNode`: how often an asset stands in a tree.
use matchline.Base.{
  ◌≡◌, refl, inl, inr, ℕ, zero, suc, ◌+◌, ◌≤◌, Bool, true, false, List, [], ◌∷◌, ◌++◌, Option, none,
  some, if◌then◌else◌, arith, Text, text_eq, ◌==◌, includes, Map, get, Option-cases,
}
use matchline.Domain.Snapshot.{ResolvedAssetNode}
use matchline.Ssm.Tree.{
  HierarchyAssetNode, asset_node, AssetNodes, no_assets, then_asset, Grown, with_tree, grow_all,
  children_at, node_with, grow_asset,
}

abbrev pub one_if : Bool → ℕ
one_if true = 1
one_if false = 0

-- How often a text stands in a list.
abbrev pub count_in : Text → List Text → ℕ
count_in x [] = 0
count_in x (y ∷ ys) = one_if (y == x) + count_in x ys

pub count_in-concat :
    (x y : Text) (ys : List Text) → count_in x (ys ++ y ∷ []) ≡ count_in x ys + one_if (y == x)
count_in-concat x y [] = omega arith
count_in-concat x y (z ∷ ys) = omega (arith, count_in-concat x y ys)

pub count_in-missing : (x : Text) (ys : List Text) → includes ys x ≡ false → count_in x ys ≡ 0
count_in-missing x [] h = refl
count_in-missing x (y ∷ ys) h = ground (arith, count_in-missing x ys)

pub count_in-there : (x : Text) (ys : List Text) → includes ys x ≡ true → 1 ≤ count_in x ys
count_in-there x [] h = cc
count_in-there x (y ∷ ys) h = ground (arith, count_in-there x ys)

abbrev mutual
  pub occurs : Text → HierarchyAssetNode → ℕ
  occurs x (asset_node asset_id status parent children dependencies) =
      one_if (asset_id == x) + occurs_among x children

  pub occurs_among : Text → AssetNodes → ℕ
  occurs_among x no_assets = 0
  occurs_among x (then_asset tree trees) = occurs x tree + occurs_among x trees

abbrev pub occurs_maybe : Text → Option HierarchyAssetNode → ℕ
occurs_maybe x none = 0
occurs_maybe x (some tree) = occurs x tree

pub occurs_among-with_tree :
    (x : Text) (o : Option HierarchyAssetNode) (trees : AssetNodes)
    → occurs_among x (with_tree o trees) ≡ occurs_maybe x o + occurs_among x trees
occurs_among-with_tree x none trees = omega arith
occurs_among-with_tree x (some tree) trees = refl

-- What `grow` puts into the guard is what it puts into the tree.
abbrev pub CountsAll : (Text → List Text → Grown) → Text → Type 0
CountsAll grow x =
    (asset_id : Text) (guard : List Text)
    → count_in x (grow asset_id guard).guard
      ≡ count_in x guard + occurs_maybe x (grow asset_id guard).tree

pub grow_all-counts :
    (grow : Text → List Text → Grown) (x : Text)
    → CountsAll grow x
    → (ids guard : List Text)
    → count_in x (grow_all grow ids guard).guard
      ≡ count_in x guard + occurs_among x (grow_all grow ids guard).trees
unfolding grow_all
grow_all-counts grow x h [] guard = omega arith
grow_all-counts grow x h (id ∷ ids) guard =
    let child : Grown = grow id guard in
    omega (
      arith,
      h id guard,
      grow_all-counts grow x h ids child.guard,
      occurs_among-with_tree x child.tree (grow_all grow ids child.guard).trees,
    )

module _ (nodes : Map Text ResolvedAssetNode) (children_of : Map Text (List Text)) where
  -- An asset that is in the guard, or that has no node, is dropped; any other gets a tree.
  pub grow_asset-dropped :
      (fuel : ℕ) (id : Text) (guard : List Text)
      → (if includes guard id then none else get nodes id) ≡ none
      → grow_asset nodes children_of fuel id guard ≡ record { tree = none; guard = guard }
  unfolding grow_asset
  grow_asset-dropped zero id guard e = refl
  grow_asset-dropped (suc fuel) id guard e = rw (e, grow_asset) refl

  pub grow_asset-grown :
      (fuel : ℕ) (id : Text) (guard : List Text) (node : ResolvedAssetNode)
      → (if includes guard id then none else get nodes id) ≡ some node
      → grow_asset nodes children_of (suc fuel) id guard
        ≡ node_with id node (
            grow_all
              (grow_asset nodes children_of fuel)
              (children_at children_of id)
              (guard ++ id ∷ []))
  unfolding grow_asset
  grow_asset-grown fuel id guard node e = rw (e, grow_asset) refl

  pub grow_asset-counts : (fuel : ℕ) (x : Text) → CountsAll (grow_asset nodes children_of fuel) x
  unfolding grow_asset
  grow_asset-counts zero x id guard = omega arith
  grow_asset-counts (suc fuel) x id guard =
      elim (Option-cases (if includes guard id then none else get nodes id)) [
        | inl dropped ↦ let e = grow_asset-dropped (suc fuel) id guard dropped in rw e (omega arith)
        | inr (node, grown) ↦
            let e = grow_asset-grown fuel id guard node grown in
            let below =
              grow_all-counts (grow_asset nodes children_of fuel) x (grow_asset-counts fuel x)
                (children_at children_of id) (guard ++ id ∷ []) in
            rw e (omega (arith, below, count_in-concat x id guard))
      ]
