-- ===== src/Ssm/Fold.antt =====
-- packages/ssm-compiler/src/fold.ts: the boundary fold, and the level values that place an asset.
-- From packages/ssm-compiler/src/types.ts: the asset as the compiler reads it.
pub mod Boundary
pub mod Spec
use matchline.Base.{
  Bool, true, false, ◌&&◌, List, [], ◌∷◌, ◌++◌, map, Option, none, some, if◌then◌else◌, ◌==◌, not,
  Text, text, text_eq, compare_text, Map, get, keep_if, sort,
}
use matchline.Domain.Ladder.{
  MissingValuePolicy, unassigned_group, review, provisional_root, HierarchyLevelConfig,
  HierarchyConfig,
}
use matchline.Domain.Snapshot.{LevelValue}

pub record CompileSubject : Type 0 where
  pub asset_id : Text
  pub attributes : Map Text Text
  pub model_tree_parent_id : Option Text

abbrev pub unassigned_group_label : Text
unassigned_group_label = text "(unassigned)"

-- The label that the tree gives to a refused value.
abbrev pub no_value_group_label : Text
no_value_group_label = text "(no value)"

pub data FoldOutcome : Type 0 where
  keep : FoldOutcome
  demote : (level_id : Text) → FoldOutcome
  missing :
      (level_id : Text) → (policy : MissingValuePolicy) → (missing_on : List Text) → FoldOutcome

-- A blank value counts as unstated.
unfoldable pub explicit_value : CompileSubject → Text → Option Text
explicit_value subject attribute_key = elim (get subject.attributes attribute_key) [
  | none ↦ none
  | some value ↦ if value == [] then none else some value
]

unfoldable pub boundary_levels : HierarchyConfig → List HierarchyLevelConfig
boundary_levels hierarchy = keep_if (λ level. level.boundary) hierarchy.levels

-- `childValue !== null && parentValue !== null && childValue !== parentValue`
unfoldable pub differs : Option Text → Option Text → Bool
differs (some child_value) (some parent_value) = not (child_value == parent_value)
differs (some child_value) none = false
differs none parent_value = false

-- The first loop: a definite difference.
unfoldable pub first_difference :
    CompileSubject → CompileSubject → List HierarchyLevelConfig → Option HierarchyLevelConfig
unfolding differs explicit_value
first_difference child parent [] = none
first_difference child parent (level ∷ levels) =
    if differs (explicit_value child level.attribute_key)
      (explicit_value parent level.attribute_key)
    then some level
    else first_difference child parent levels

-- `missingOn` for one level.
unfoldable pub lacking : CompileSubject → Option Text → List Text
lacking subject none = subject.asset_id ∷ []
lacking subject (some value) = []

-- `value !== null`
abbrev pub stated : Option Text → Bool
stated (some value) = true
stated none = false

-- The second loop: an unknown on either side.
unfoldable pub first_missing :
    CompileSubject → CompileSubject → List HierarchyLevelConfig → FoldOutcome
unfolding lacking explicit_value
first_missing child parent [] = keep
first_missing child parent (level ∷ levels) =
    let child_value = explicit_value child level.attribute_key in
    let parent_value = explicit_value parent level.attribute_key in
    if stated child_value && stated parent_value
    then first_missing child parent levels
    else missing level.level_id level.missing_value_policy
        (sort compare_text (lacking child child_value ++ lacking parent parent_value))

unfoldable pub fold_boundaries : CompileSubject → CompileSubject → HierarchyConfig → FoldOutcome
unfolding first_difference first_missing boundary_levels
fold_boundaries child parent hierarchy =
    elim (first_difference child parent (boundary_levels hierarchy)) [
      | some level ↦ demote level.level_id
      | none ↦ first_missing child parent (boundary_levels hierarchy)
    ]

abbrev level_label : MissingValuePolicy → Text
level_label unassigned_group = unassigned_group_label
level_label review = []
level_label provisional_root = []

level_value_of : CompileSubject → HierarchyLevelConfig → LevelValue
unfolding explicit_value
level_value_of subject level = elim (explicit_value subject level.attribute_key) [
  | some value ↦ record { level_id = level.level_id; value = value }
  | none ↦ record { level_id = level.level_id; value = level_label level.missing_value_policy }
]

unfoldable pub level_path_of : CompileSubject → HierarchyConfig → List LevelValue
unfolding level_value_of
level_path_of subject hierarchy = map (level_value_of subject) hierarchy.levels
