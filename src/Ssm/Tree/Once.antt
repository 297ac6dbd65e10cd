-- ===== src/Ssm/Tree/Once.antt =====
-- packages/ssm-compiler/src/tree.ts, `hierarchyTree`: every asset has one place.
use matchline.Base.{
  ◌≡◌, ◌≢◌, refl, ◌∙◌, sym, inl, inr, suc, ◌≤◌, Bool, true, List, [], ◌∷◌, none, some, arith, Text,
  text_eq, compare_text, ◌==◌, includes, includes-sort, sort, sort-IsDistinct, length, any, Map,
  get, get-some_of_has, has, has_of_get, Bool-cases, List-cases, subst,
}
use matchline.Domain.Snapshot.{ResolvedAssetNode}
use matchline.Ssm.Fold.{CompileSubject}
use matchline.Ssm.Cycles.Links.{parent_at}
use matchline.Ssm.Cycles.Roots.{ReachesRoot, at_root, through}
use matchline.Ssm.Snapshot.{CompileInput, compile_snapshot}
use matchline.Ssm.Snapshot.Acyclic.{compile_snapshot-acyclic, compile_snapshot-closed}
use matchline.Ssm.Snapshot.Boundaries.{has-compile_snapshot}
use matchline.Ssm.Tree.{Grown, grow_all, grow_asset, Sorting, sort_siblings, Growing, no_buckets}
use matchline.Ssm.Tree.Levels.{file_all}
use matchline.Ssm.Tree.Whole.{placeable_ids, sorting_of, growing_of, arranged, hierarchy_tree}
use matchline.Ssm.Tree.Counts.{one_if, count_in, count_in-there, grow_asset-counts}
use matchline.Ssm.Tree.Guard.{Covers, grow_all-closed}
use matchline.Ssm.Tree.Sorted.{
  placeable_from-includes, placeable_from-IsDistinct, includes-sort_siblings, Sorts, AreRoots,
  sort_all-Sorts, sort_all-AreRoots,
}
use matchline.Ssm.Tree.Filed.{
  sum_over, file_all-sum, occurs_in, held_by, trees_of-occurs, freeze_all-occurs,
}
use matchline.Ssm.Tree.Leveled.{compile_snapshot-IsLeveled}
use matchline.Ssm.Tree.Kept.{
  grow_all-KeepsGuard, grow_asset-KeepsGuard, grow_roots-guard, grow_roots-counts,
}

module _ (input : CompileInput) where
  abbrev snapshot_nodes : Map Text ResolvedAssetNode
  snapshot_nodes = (compile_snapshot input).nodes

  abbrev sorting : Sorting
  sorting = sorting_of snapshot_nodes input.subjects

  abbrev growing : Growing
  growing = growing_of snapshot_nodes sorting

  abbrev is_subject : Text → Bool
  is_subject x = any (λ (s : CompileSubject). s.asset_id == x) input.subjects

  placeable-eq_has :
      (x : Text) → includes (placeable_ids snapshot_nodes input.subjects) x ≡ has snapshot_nodes x
  unfolding placeable_ids
  placeable-eq_has x = ground (
    arith,
    placeable_from-includes snapshot_nodes [] input.subjects x,
    has-compile_snapshot input x,
  )

  sorting-AreRoots :
      AreRoots snapshot_nodes (placeable_ids snapshot_nodes input.subjects) sorting.roots
  unfolding sorting_of placeable_ids
  sorting-AreRoots =
      let ids = placeable_ids snapshot_nodes input.subjects in
      sort_all-AreRoots snapshot_nodes ids (sort compare_text ids)
        (record { children_of = []; roots = [] })
        (sort-IsDistinct compare_text ids
          (placeable_from-IsDistinct snapshot_nodes [] input.subjects tt))
        (λ x h. refl) (record { apart = tt; known = tt })

  sorting-Sorts :
      (x : Text) (node : ResolvedAssetNode)
      → get snapshot_nodes x ≡ some node
      → Sorts (placeable_ids snapshot_nodes input.subjects) sorting x node.parent.parent_asset_id
  unfolding sorting_of
  sorting-Sorts x node found =
      let ids = placeable_ids snapshot_nodes input.subjects in
      (sort_all-Sorts snapshot_nodes ids (sort compare_text ids)
          (record { children_of = []; roots = [] })).1
        x node
        (includes-sort compare_text ids x
          ∙ placeable-eq_has x
          ∙ has_of_get snapshot_nodes x node found)
        found

  abbrev grower : Text → List Text → Grown
  grower =
      grow_asset snapshot_nodes (sort_siblings sorting.children_of) (suc (length snapshot_nodes))

  guard-eq : growing.guard ≡ (grow_all grower sorting.roots []).guard
  unfolding growing_of
  guard-eq = grow_roots-guard grower sorting.roots (record { built = []; guard = [] })

  growing-Covers :
      Covers snapshot_nodes (sort_siblings sorting.children_of) sorting.roots [] growing.guard
  growing-Covers =
      subst (Covers snapshot_nodes (sort_siblings sorting.children_of) sorting.roots [])
        (sym guard-eq)
        (grow_all-closed snapshot_nodes (sort_siblings sorting.children_of) sorting.roots [])

  -- Every asset is reached from the roots, by its chain of parents.
  reached_by_tree :
      (x : Text)
      → ReachesRoot (parent_at snapshot_nodes) x
      → has snapshot_nodes x ≡ true
      → includes growing.guard x ≡ true
  reached_by_tree x (at_root e) known =
      let (node, found) = get-some_of_has snapshot_nodes x known in
      let free : node.parent.parent_asset_id ≡ none = sym (rw found refl) ∙ e in
      let placed = sorting-Sorts x node found in growing-Covers.takes x (rw free at placed) known
  reached_by_tree x (through y e up) known =
      let (node, found) = get-some_of_has snapshot_nodes x known in
      let under : node.parent.parent_asset_id ≡ some y = sym (rw found refl) ∙ e in
      let parent_known = compile_snapshot-closed input x y e in
      let seen : includes (placeable_ids snapshot_nodes input.subjects) y ≡ true =
        placeable-eq_has y ∙ parent_known in
      let placed = sorting-Sorts x node found in
      let child = rw (under, seen) at placed in
      growing-Covers.fills y x refl (reached_by_tree y up parent_known)
        (includes-sort_siblings sorting.children_of y x ∙ child) known

  guard-counts : (x : Text) → count_in x growing.guard ≡ one_if (is_subject x)
  guard-counts x =
      let most : count_in x growing.guard ≤ one_if (has snapshot_nodes x) =
        subst (λ l. count_in x l ≤ one_if (has snapshot_nodes x)) (sym guard-eq)
          (grow_all-KeepsGuard snapshot_nodes (sort_siblings sorting.children_of) grower
            (grow_asset-KeepsGuard snapshot_nodes (sort_siblings sorting.children_of)
              (suc (length snapshot_nodes)))
            sorting.roots [] (λ y. omega arith) x) in
      let same = has-compile_snapshot input x in
      elim (Bool-cases (has snapshot_nodes x)) [
        | inl known ↦
            let there =
              count_in-there x growing.guard
                (reached_by_tree x (compile_snapshot-acyclic input x) known) in
            ground (arith, most, there, same, known)
        | inr unknown ↦ ground (arith, most, same, unknown)
      ]

  built-counts :
      (x : Text) → sum_over (held_by growing.built x) sorting.roots ≡ one_if (is_subject x)
  unfolding growing_of
  built-counts x = omega (
    arith,
    grow_roots-counts grower x
        (grow_asset-counts snapshot_nodes (sort_siblings sorting.children_of)
          (suc (length snapshot_nodes)) x)
        sorting.roots (record { built = []; guard = [] }) sorting-AreRoots.apart (λ r h. refl),
    guard-counts x,
  )

  -- In the tree of a compiled snapshot every asset of the input stands exactly once, and nothing else
  -- stands in it, with levels and without.
  pub hierarchy_tree-once :
      (x : Text)
      → occurs_in x (hierarchy_tree (compile_snapshot input) input.hierarchy input.subjects)
        ≡ one_if (any (λ (s : CompileSubject). s.asset_id == x) input.subjects)
  unfolding hierarchy_tree arranged
  hierarchy_tree-once x = elim (List-cases input.hierarchy.levels) [
    | inl flat ↦
        rw (flat, arranged)
          (omega (arith, trees_of-occurs growing.built x sorting.roots, built-counts x))
    | inr (l, levels, e) ↦
        let some_level : input.hierarchy.levels ≢ [] =
          λ none_left. let never : l ∷ levels ≡ [] = sym e ∙ none_left in cc in
        let filed =
          file_all-sum (held_by growing.built x) snapshot_nodes
            (compile_snapshot-IsLeveled input some_level) sorting.roots no_buckets
            sorting-AreRoots.known in
        rw (e, arranged)
          (omega (
            arith,
            filed,
            freeze_all-occurs growing.built x (file_all snapshot_nodes sorting.roots no_buckets),
            built-counts x,
          ))
  ]
