-- ===== src/Ssm/Tree/Leveled.antt =====
-- packages/ssm-compiler/src/compile.ts, `compileSnapshot`: the level paths of the nodes.
use matchline.Base.{
  ◌≡◌, ◌≢◌, refl, ap, ◌∙◌, sym, inl, inr, List, [], ◌∷◌, Option, none, some, Text, text_eq, ◌==◌,
  Map, get, put, get-put, Bool-cases, Option-cases, some_injective,
}
use matchline.Domain.Ladder.{ParentLadderConfig, HierarchyConfig, HierarchyLevelConfig}
use matchline.Domain.Snapshot.{ResolvedAssetNode}
use matchline.Ssm.Fold.{CompileSubject, level_path_of}
use matchline.Ssm.Cycles.{weakest_member, downgrade}
use matchline.Ssm.Resolve.{resolve_subject}
use matchline.Ssm.Snapshot.{
  CompileInput, Building, context_of, subject_index, compile_snapshot, ladder_of, break_cycle,
  break_next, break_cycles, resolved_building, cycles_of,
}
use matchline.Ssm.Snapshot.Nodes.{resolved-get, node_of}

-- Every node has a level path.
abbrev pub IsLeveled : Map Text ResolvedAssetNode → Type 0
IsLeveled nodes = (x : Text) (n : ResolvedAssetNode) → get nodes x ≡ some n → n.level_path ≢ []

level_path-downgrade :
    (n : ResolvedAssetNode) (ladder : ParentLadderConfig)
    → (downgrade n ladder).level_path ≡ n.level_path
unfolding downgrade
level_path-downgrade n ladder = refl

put-IsLeveled :
    (nodes : Map Text ResolvedAssetNode) (w : Text) (m : ResolvedAssetNode)
    → IsLeveled nodes
    → m.level_path ≢ []
    → IsLeveled (put nodes w m)
put-IsLeveled nodes w m leveled some_level x n e = elim (Bool-cases (w == x)) [
  | inl here ↦
      let same : m ≡ n = some_injective (sym (get-put nodes w x m ∙ rw here refl) ∙ e) in
      λ none_left. some_level (ap (λ (k : ResolvedAssetNode). k.level_path) same ∙ none_left)
  | inr there ↦ leveled x n (sym (get-put nodes w x m ∙ rw there refl) ∙ e)
]

module _ (ladder : ParentLadderConfig) where
  break_cycle-IsLeveled :
      (nodes : Map Text ResolvedAssetNode) (cycle : List Text)
      → IsLeveled nodes
      → IsLeveled (break_cycle ladder nodes cycle)
  unfolding break_cycle
  break_cycle-IsLeveled nodes cycle leveled =
      elim (Option-cases (weakest_member cycle nodes ladder)) [
        | inl nobody ↦ rw (nobody, break_cycle) leveled
        | inr (w, e) ↦ elim (Option-cases (get nodes w)) [
          | inl missing ↦ rw (e, missing, break_cycle) leveled
          | inr (n, found) ↦
              rw (e, found, break_cycle)
                (put-IsLeveled nodes w (downgrade n ladder) leveled (λ none_left.
                  leveled w n found (sym (level_path-downgrade n ladder) ∙ none_left)))
        ]
      ]

  break_cycles-IsLeveled :
      (b : Building) (cycles : List (List Text))
      → IsLeveled b.nodes
      → IsLeveled (break_cycles ladder b cycles).nodes
  unfolding break_cycles
  break_cycles-IsLeveled b [] leveled = leveled
  break_cycles-IsLeveled b (cycle ∷ cycles) leveled =
      break_cycles-IsLeveled (break_next ladder b cycle) cycles
        (break_cycle-IsLeveled b.nodes cycle leveled)

level_path_of-some :
    (s : CompileSubject) (h : HierarchyConfig) → h.levels ≢ [] → level_path_of s h ≢ []
unfolding level_path_of
level_path_of-some s h some_level = go h.levels some_level
  where
    go :
        (levels : List HierarchyLevelConfig)
        → levels ≢ []
        → level_path_of s (record { levels = levels }) ≢ []
    go [] some_levels = λ e. some_levels refl
    go (l ∷ levels) some_levels = λ e. cc

resolve_subject-level_path :
    (input : CompileInput) (s : CompileSubject)
    → (resolve_subject s (context_of input)).node.level_path ≡ level_path_of s input.hierarchy
unfolding resolve_subject
resolve_subject-level_path input s = refl

-- With levels, every node of a snapshot has a level path.
pub compile_snapshot-IsLeveled :
    (input : CompileInput) → input.hierarchy.levels ≢ [] → IsLeveled (compile_snapshot input).nodes
unfolding compile_snapshot
compile_snapshot-IsLeveled input some_level =
    break_cycles-IsLeveled (ladder_of input.ladder) (resolved_building input) (cycles_of input)
      (λ x n e. of_node (get (subject_index input) x) n (sym (resolved-get input x) ∙ e))
  where
    of_node :
        (o : Option CompileSubject) (n : ResolvedAssetNode)
        → node_of (context_of input) o ≡ some n
        → n.level_path ≢ []
    of_node none n e = cc
    of_node (some s) n e = λ none_left. level_path_of-some s input.hierarchy some_level (
        sym (resolve_subject-level_path input s)
        ∙ ap (λ (k : ResolvedAssetNode). k.level_path) (some_injective e)
        ∙ none_left)
