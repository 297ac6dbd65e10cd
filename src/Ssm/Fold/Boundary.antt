-- ===== src/Ssm/Fold/Boundary.antt =====
-- packages/ssm-compiler/src/fold.ts: the rules of the fold, without its two loops.
use matchline.Base.{
  ◌≡◌, refl, ◌≢◌, ◌⊎◌, inl, inr, Bool, true, false, List, [], ◌∷◌, ◌++◌, Option, none, some, arith,
  Text, text_eq, text_beq_iff, All, First, found, later, Option-cases, Bool-cases, ◌==◌, ◌&&◌, sort,
  compare_text,
}
use matchline.Domain.Ladder.{HierarchyLevelConfig, HierarchyConfig}
use matchline.Ssm.Fold.{
  CompileSubject, FoldOutcome, keep, demote, missing, explicit_value, boundary_levels, differs,
  stated, first_difference, lacking, first_missing, fold_boundaries,
}

module _ (child parent : CompileSubject) where
  -- Both assets state the value of a level, and the values are equal.
  abbrev pub SharesLevel : HierarchyLevelConfig → Type 0
  SharesLevel level =
      (v : Text) × (explicit_value child level.attribute_key ≡ some v)
      × (explicit_value parent level.attribute_key ≡ some v)

  -- Both state it, and the values differ.
  abbrev pub DiffersAt : HierarchyLevelConfig → Type 0
  DiffersAt level =
      (v w : Text) × (explicit_value child level.attribute_key ≡ some v)
      × (explicit_value parent level.attribute_key ≡ some w)
      × (v ≢ w)

  -- One of them does not state it.
  abbrev pub LacksLevel : HierarchyLevelConfig → Type 0
  LacksLevel level =
      (explicit_value child level.attribute_key ≡ none)
      ⊎ (explicit_value parent level.attribute_key ≡ none)

  abbrev pub child_value : HierarchyLevelConfig → Option Text
  child_value level = explicit_value child level.attribute_key

  abbrev pub parent_value : HierarchyLevelConfig → Option Text
  parent_value level = explicit_value parent level.attribute_key

  -- What the tests of the two loops answer at one level.
  record Tested (difference both_stated : Bool) (level : HierarchyLevelConfig) : Type 0 where
    differs_is : differs (child_value level) (parent_value level) ≡ difference
    stated_is : (stated (child_value level) && stated (parent_value level)) ≡ both_stated

  data Compared (level : HierarchyLevelConfig) : Type 0 where
    shares : SharesLevel level → Tested false true level → Compared level
    apart : DiffersAt level → Tested true true level → Compared level
    lacks : LacksLevel level → Tested false false level → Compared level

  compare_both :
      (level : HierarchyLevelConfig) (v w : Text)
      → child_value level ≡ some v
      → parent_value level ≡ some w
      → Compared level
  unfolding differs
  compare_both level v w p q = elim (Bool-cases (v == w)) [
    | inl e ↦
        shares (v, p, rw ((text_beq_iff v w).0 e) q)
          (record { differs_is = ground arith; stated_is = ground arith })
    | inr d ↦
        apart (v, w, p, q, λ e. ground (arith, text_beq_iff v w))
          (record { differs_is = ground arith; stated_is = ground arith })
  ]

  compared : (level : HierarchyLevelConfig) → Compared level
  unfolding differs
  compared level = elim (Option-cases (child_value level)) [
    | inl p ↦ lacks (inl p) (record { differs_is = rw (p, differs); stated_is = rw p })
    | inr (v, p) ↦ elim (Option-cases (parent_value level)) [
      | inl q ↦ lacks (inr q) (record { differs_is = rw (p, q, differs); stated_is = rw (p, q) })
      | inr (w, q) ↦ compare_both level v w p q
    ]
  ]

  pub not-DiffersAt_of_SharesLevel :
      (level : HierarchyLevelConfig) → SharesLevel level → ¬ DiffersAt level
  not-DiffersAt_of_SharesLevel level (v, p, q) (a, b, p', q', ne) = ne (ground arith)

  not-DiffersAt_of_LacksLevel :
      (level : HierarchyLevelConfig) → LacksLevel level → ¬ DiffersAt level
  not-DiffersAt_of_LacksLevel level (inl p) (a, b, p', q', ne) = ground arith
  not-DiffersAt_of_LacksLevel level (inr q) (a, b, p', q', ne) = ground arith

  pub not-LacksLevel_of_SharesLevel :
      (level : HierarchyLevelConfig) → SharesLevel level → ¬ LacksLevel level
  not-LacksLevel_of_SharesLevel level (v, p, q) (inl n) = ground arith
  not-LacksLevel_of_SharesLevel level (v, p, q) (inr n) = ground arith

  -- The first loop.
  data Differences (levels : List HierarchyLevelConfig) : Type 0 where
    no_difference :
        All (λ l. ¬ DiffersAt l) levels
        → first_difference child parent levels ≡ none
        → Differences levels
    difference :
        (level : HierarchyLevelConfig)
        → First DiffersAt levels level
        → first_difference child parent levels ≡ some level
        → Differences levels

  differences : (levels : List HierarchyLevelConfig) → Differences levels
  unfolding first_difference
  differences [] = no_difference tt refl
  differences (l ∷ ls) = elim (compared l) [
    | apart d t ↦ difference l (found d) (rw t.differs_is)
    | shares s t ↦ go (not-DiffersAt_of_SharesLevel l s) t.differs_is (differences ls)
    | lacks n t ↦ go (not-DiffersAt_of_LacksLevel l n) t.differs_is (differences ls)
  ]
    where
      go :
          (¬ DiffersAt l)
          → differs (child_value l) (parent_value l) ≡ false
          → Differences ls
          → Differences (l ∷ ls)
      go n e (no_difference all r) = no_difference (n, all) (rw e r)
      go n e (difference level f r) = difference level (later n f) (rw e r)

  -- The report on the first level that one of them lacks: `missingOn` is sorted by code units.
  abbrev pub missing_report : HierarchyLevelConfig → FoldOutcome
  missing_report level =
      missing level.level_id level.missing_value_policy (
        sort compare_text
          (lacking child (child_value level) ++ lacking parent (parent_value level)))

  -- The second loop, which runs where the first found nothing.
  data Gaps (levels : List HierarchyLevelConfig) : Type 0 where
    no_gap : All SharesLevel levels → first_missing child parent levels ≡ keep → Gaps levels
    gap :
        (level : HierarchyLevelConfig)
        → First LacksLevel levels level
        → first_missing child parent levels ≡ missing_report level
        → Gaps levels

  gaps : (levels : List HierarchyLevelConfig) → All (λ l. ¬ DiffersAt l) levels → Gaps levels
  unfolding first_missing
  gaps [] _ = no_gap tt refl
  gaps (l ∷ ls) (same, rest) = elim (compared l) [
    | apart d t ↦ absurd (same d)
    | lacks n t ↦ gap l (found n) (rw t.stated_is)
    | shares s t ↦ go s t.stated_is (gaps ls rest)
  ]
    where
      go :
          SharesLevel l
          → (stated (child_value l) && stated (parent_value l)) ≡ true
          → Gaps ls
          → Gaps (l ∷ ls)
      go s e (no_gap all r) = no_gap (s, all) (rw e r)
      go s e (gap level f r) = gap level (later (not-LacksLevel_of_SharesLevel l s) f) (rw e r)

  -- The rules of the fold (file comment of fold.ts), as a relation between the enabled boundaries
  -- and the outcome.
  pub data FoldSpec (levels : List HierarchyLevelConfig) (outcome : FoldOutcome) : Type 0 where
    keeps : All SharesLevel levels → outcome ≡ keep → FoldSpec levels outcome
    demotes :
        (level : HierarchyLevelConfig)
        → First DiffersAt levels level
        → outcome ≡ demote level.level_id
        → FoldSpec levels outcome
    misses :
        (level : HierarchyLevelConfig)
        → All (λ l. ¬ DiffersAt l) levels
        → First LacksLevel levels level
        → outcome ≡ missing_report level
        → FoldSpec levels outcome

  pub fold_boundaries-FoldSpec :
      (hierarchy : HierarchyConfig)
      → FoldSpec (boundary_levels hierarchy) (fold_boundaries child parent hierarchy)
  unfolding fold_boundaries
  fold_boundaries-FoldSpec hierarchy = first (differences (boundary_levels hierarchy))
    where
      second :
          All (λ l. ¬ DiffersAt l) (boundary_levels hierarchy)
          → first_difference child parent (boundary_levels hierarchy) ≡ none
          → Gaps (boundary_levels hierarchy)
          → FoldSpec (boundary_levels hierarchy) (fold_boundaries child parent hierarchy)
      second all e (no_gap shared r) = keeps shared (rw (e, fold_boundaries) r)
      second all e (gap level f r) = misses level all f (rw (e, fold_boundaries) r)

      first :
          Differences (boundary_levels hierarchy)
          → FoldSpec (boundary_levels hierarchy) (fold_boundaries child parent hierarchy)
      first (difference level f r) = demotes level f (rw (r, fold_boundaries))
      first (no_difference all r) = second all r (gaps (boundary_levels hierarchy) all)
