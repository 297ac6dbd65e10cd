-- ===== src/Ssm/Fold/Spec.antt =====
-- packages/ssm-compiler/src/fold.ts: `foldBoundaries` against its rules.
use matchline.Base.{
  ◌≡◌, sym, ap, ◌∙◌, ◌↔◌, List, All, All-imp, First-unique, not-All_of_First, subst,
}
use matchline.Domain.Ladder.{HierarchyLevelConfig, HierarchyConfig}
use matchline.Ssm.Fold.{CompileSubject, FoldOutcome, keep, demote, boundary_levels, fold_boundaries}
use matchline.Ssm.Fold.Boundary.{
  SharesLevel, DiffersAt, LacksLevel, not-DiffersAt_of_SharesLevel, not-LacksLevel_of_SharesLevel,
  missing_report, FoldSpec, keeps, demotes, misses, fold_boundaries-FoldSpec,
}

module _ (child parent : CompileSubject) where
  no-difference_of_shared :
      (levels : List HierarchyLevelConfig)
      → All (SharesLevel child parent) levels
      → All (λ l. ¬ DiffersAt child parent l) levels
  no-difference_of_shared = All-imp (not-DiffersAt_of_SharesLevel child parent)

  no-gap_of_shared :
      (levels : List HierarchyLevelConfig)
      → All (SharesLevel child parent) levels
      → All (λ l. ¬ LacksLevel child parent l) levels
  no-gap_of_shared = All-imp (not-LacksLevel_of_SharesLevel child parent)

  FoldSpec-unique :
      {levels : List HierarchyLevelConfig} {a b : FoldOutcome}
      → FoldSpec child parent levels a
      → FoldSpec child parent levels b
      → a ≡ b
  FoldSpec-unique (keeps s e) (keeps t d) = e ∙ sym d
  FoldSpec-unique (keeps s e) (demotes l f d) =
      absurd (not-All_of_First (DiffersAt child parent) f (no-difference_of_shared _ s))
  FoldSpec-unique (keeps s e) (misses l n f d) =
      absurd (not-All_of_First (LacksLevel child parent) f (no-gap_of_shared _ s))
  FoldSpec-unique (demotes l f e) (keeps t d) =
      absurd (not-All_of_First (DiffersAt child parent) f (no-difference_of_shared _ t))
  FoldSpec-unique (demotes l f e) (demotes m g d) =
      e ∙ ap (λ k. demote k.level_id) (First-unique (DiffersAt child parent) f g) ∙ sym d
  FoldSpec-unique (demotes l f e) (misses m n g d) =
      absurd (not-All_of_First (DiffersAt child parent) f n)
  FoldSpec-unique (misses l n f e) (keeps t d) =
      absurd (not-All_of_First (LacksLevel child parent) f (no-gap_of_shared _ t))
  FoldSpec-unique (misses l n f e) (demotes m g d) =
      absurd (not-All_of_First (DiffersAt child parent) g n)
  FoldSpec-unique (misses l n f e) (misses m k g d) =
      e ∙ ap (missing_report child parent) (First-unique (LacksLevel child parent) f g) ∙ sym d

  -- The fold of a child against a proposed parent has an outcome exactly when the rules give it:
  -- `keep` if both assets state every enabled boundary and agree on it; `demote` on the first
  -- boundary, in configured order, that both state and that differs; and if no boundary differs,
  -- `missing` on the first that one of them does not state, with the assets that lack it.
  pub fold_boundaries_iff :
      (hierarchy : HierarchyConfig) (outcome : FoldOutcome)
      → (fold_boundaries child parent hierarchy ≡ outcome)
        ↔ FoldSpec child parent (boundary_levels hierarchy) outcome
  fold_boundaries_iff hierarchy outcome = (
    λ e. subst (FoldSpec child parent _) e (fold_boundaries-FoldSpec child parent hierarchy),
    FoldSpec-unique (fold_boundaries-FoldSpec child parent hierarchy),
  )

  shared_of_keep :
      (levels : List HierarchyLevelConfig)
      → FoldSpec child parent levels keep
      → All (SharesLevel child parent) levels
  shared_of_keep levels (keeps s e) = s
  shared_of_keep levels (demotes l f e) = cc
  shared_of_keep levels (misses l n f e) = cc

  -- A kept parent lies in the child's own building, system, …: all enabled boundaries agree.
  pub shared_of_fold-keep :
      (hierarchy : HierarchyConfig)
      → fold_boundaries child parent hierarchy ≡ keep
      → All (SharesLevel child parent) (boundary_levels hierarchy)
  shared_of_fold-keep hierarchy e =
      shared_of_keep (boundary_levels hierarchy) ((fold_boundaries_iff hierarchy keep).0 e)
