-- ===== src/Ssm/Tree/Filed.antt =====
-- packages/ssm-compiler/src/tree.ts: filing the roots by level path, and freezing the buckets.
use matchline.Base.{
  ◌≡◌, ◌≢◌, refl, inl, inr, ℕ, ◌+◌, true, List, [], ◌∷◌, ◌++◌, some, arith, Text, text_eq, ◌==◌,
  All, Map, get, get-some_of_has, has, Bool-cases,
}
use matchline.Domain.Snapshot.{ResolvedAssetNode, LevelValue}
use matchline.Ssm.Tree.{
  HierarchyAssetNode, LevelBucket, bucket, LevelBuckets, no_buckets, then_bucket,
  HierarchyLevelNode, level_node, LevelNodes, no_levels, then_level, HierarchyTree, trees_of,
}
use matchline.Ssm.Tree.Levels.{
  title_of, bucket_value, new_bucket, in_bucket, file_in, file_asset, file_node, file_all,
  insert_level, freeze, freeze_all,
}
use matchline.Ssm.Tree.Counts.{occurs_among, occurs_maybe, occurs_among-with_tree}

module _ (weight : Text → ℕ) where
  abbrev pub sum_over : List Text → ℕ
  sum_over [] = 0
  sum_over (a ∷ ids) = weight a + sum_over ids

  sum_over-concat :
      (ids : List Text) (a : Text) → sum_over (ids ++ a ∷ []) ≡ sum_over ids + weight a
  sum_over-concat [] a = omega arith
  sum_over-concat (b ∷ ids) a = omega (arith, sum_over-concat ids a)

  -- What the assets of a bucket weigh, those of its levels included.
  abbrev mutual
    pub bucket_sum : LevelBucket → ℕ
    bucket_sum (bucket level_id value levels assets) = buckets_sum levels + sum_over assets

    pub buckets_sum : LevelBuckets → ℕ
    buckets_sum no_buckets = 0
    buckets_sum (then_bucket b level) = bucket_sum b + buckets_sum level

  abbrev Adds : (LevelBucket → LevelBucket) → ℕ → Type 0
  Adds f n = (b : LevelBucket) → bucket_sum (f b) ≡ bucket_sum b + n

  in_bucket-sum :
      (level_id value : Text) (f : LevelBucket → LevelBucket) (n : ℕ)
      → Adds f n
      → (level : LevelBuckets)
      → buckets_sum (in_bucket level_id value f level) ≡ buckets_sum level + n
  unfolding in_bucket
  in_bucket-sum level_id value f n adds no_buckets = omega (arith, adds (new_bucket level_id value))
  in_bucket-sum level_id value f n adds (then_bucket b level) =
      elim (Bool-cases (bucket_value b == value)) [
        | inl here ↦ rw here (omega (arith, adds b))
        | inr there ↦ rw there (omega (arith, in_bucket-sum level_id value f n adds level))
      ]

  file_in-sum : (path : List LevelValue) (a : Text) → Adds (file_in path a) (weight a)
  unfolding file_in
  file_in-sum [] a (bucket level_id value levels assets) = omega (arith, sum_over-concat assets a)
  file_in-sum (step ∷ path) a (bucket level_id value levels assets) = omega (
    arith,
    in_bucket-sum step.level_id (title_of step.value) (file_in path a) (weight a)
        (file_in-sum path a) levels,
  )

  file_asset-sum :
      (path : List LevelValue) (a : Text) (top : LevelBuckets)
      → path ≢ []
      → buckets_sum (file_asset path a top) ≡ buckets_sum top + weight a
  unfolding file_asset
  file_asset-sum [] a top some_level = absurd (some_level refl)
  file_asset-sum (step ∷ path) a top some_level =
      in_bucket-sum step.level_id (title_of step.value) (file_in path a) (weight a)
        (file_in-sum path a) top

  -- Each root that has a level path is filed once.
  pub file_all-sum :
      (nodes : Map Text ResolvedAssetNode)
      → ((x : Text) (n : ResolvedAssetNode) → get nodes x ≡ some n → n.level_path ≢ [])
      → (roots : List Text) (top : LevelBuckets) → All (λ r. has nodes r ≡ true) roots
      → buckets_sum (file_all nodes roots top) ≡ buckets_sum top + sum_over roots
  unfolding file_all
  file_all-sum nodes leveled [] top _ = omega arith
  file_all-sum nodes leveled (r ∷ roots) top (known, rest) =
      let (n, found) = get-some_of_has nodes r known in
      let filed : buckets_sum (file_node r (get nodes r) top) ≡ buckets_sum top + weight r =
        rw found (file_asset-sum n.level_path r top (leveled r n found)) in
      omega (arith, filed, file_all-sum nodes leveled roots (file_node r (get nodes r) top) rest)

abbrev mutual
  pub occurs_in_level : Text → HierarchyLevelNode → ℕ
  occurs_in_level x (level_node level_id value levels assets) =
      occurs_in_levels x levels + occurs_among x assets

  pub occurs_in_levels : Text → LevelNodes → ℕ
  occurs_in_levels x no_levels = 0
  occurs_in_levels x (then_level l ls) = occurs_in_level x l + occurs_in_levels x ls

-- How often an asset stands in the whole tree.
abbrev pub occurs_in : Text → HierarchyTree → ℕ
occurs_in x t = occurs_in_levels x t.levels + occurs_among x t.assets

insert_level-occurs :
    (x : Text) (l : HierarchyLevelNode) (ls : LevelNodes)
    → occurs_in_levels x (insert_level l ls) ≡ occurs_in_level x l + occurs_in_levels x ls
unfolding insert_level
insert_level-occurs x l no_levels = refl
insert_level-occurs x l (then_level m ls) = ground (
  arith,
  insert_level-occurs x l ls,
  add_swap (occurs_in_level x l) (occurs_in_level x m) (occurs_in_levels x ls),
)
  where
    add_swap : (a b c : ℕ) → b + (a + c) ≡ a + (b + c)
    add_swap a b c = omega arith

module _ (built : Map Text HierarchyAssetNode) (x : Text) where
  -- What a built asset holds of `x`.
  abbrev pub held_by : Text → ℕ
  held_by a = occurs_maybe x (get built a)

  pub trees_of-occurs :
      (ids : List Text) → occurs_among x (trees_of built ids) ≡ sum_over held_by ids
  unfolding trees_of
  trees_of-occurs [] = refl
  trees_of-occurs (a ∷ ids) =
      omega
        (arith, occurs_among-with_tree x (get built a) (trees_of built ids), trees_of-occurs ids)

  mutual
    unfolding freeze freeze_all

    freeze-occurs : (b : LevelBucket) → occurs_in_level x (freeze built b) ≡ bucket_sum held_by b
    freeze-occurs (bucket level_id value levels assets) =
        omega (arith, freeze_all-occurs levels, trees_of-occurs assets)

    pub freeze_all-occurs :
        (level : LevelBuckets)
        → occurs_in_levels x (freeze_all built level) ≡ buckets_sum held_by level
    freeze_all-occurs no_buckets = refl
    freeze_all-occurs (then_bucket b level) = omega (
      arith,
      insert_level-occurs x (freeze built b) (freeze_all built level),
      freeze-occurs b,
      freeze_all-occurs level,
    )
