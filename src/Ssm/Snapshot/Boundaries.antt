-- ===== src/Ssm/Snapshot/Boundaries.antt =====
-- packages/ssm-compiler/src/compile.ts, `compileSnapshot`: where the nodes of the snapshot come from.
use matchline.Base.{
  ◌≡◌, sym, ◌∙◌, ap, ◌≢◌, inl, inr, ◌||◌, List, [], ◌∷◌, none, some, ◌==◌, arith, Text, text_eq,
  text_beq_iff, Map, get, get-none_of_has, get-some_of_has, has, has-put, put_new, any, All,
  Bool-cases,
}
use matchline.Domain.Ladder.{manual}
use matchline.Domain.Snapshot.{ResolvedAssetNode}
use matchline.Ssm.Fold.{CompileSubject, boundary_levels}
use matchline.Ssm.Fold.Boundary.{SharesLevel}
use matchline.Ssm.Resolve.{resolve_subject}
use matchline.Ssm.Resolve.Sharing.{resolve_subject-shares}
use matchline.Ssm.Cycles.Links.{parent_of_node}
use matchline.Ssm.Snapshot.{
  CompileInput, context_of, index_subjects, subject_index, resolved_building, compile_snapshot,
}
use matchline.Ssm.Snapshot.Nodes.{resolved-get, node_for, node_of}
use matchline.Ssm.Snapshot.Parents.{resolved-known}
use matchline.Ssm.Snapshot.Acyclic.{broken-BreaksAll}

has-index_subjects :
    (by_id : Map Text CompileSubject) (subjects : List CompileSubject) (x : Text)
    → has (index_subjects by_id subjects) x ≡ (has by_id x || any (λ s. s.asset_id == x) subjects)
unfolding index_subjects
has-index_subjects by_id [] x = ground arith
has-index_subjects by_id (s ∷ subjects) x =
    has-index_subjects (put_new by_id s.asset_id s) subjects x
    ∙ ground (arith, has-put by_id s.asset_id x s, text_beq_iff s.asset_id x)

module _ (input : CompileInput) where
  resolved-has : (x : Text) → has (resolved_building input).nodes x ≡ has (subject_index input) x
  resolved-has x = elim (Bool-cases (has (subject_index input) x)) [
    | inl here ↦ resolved-known input x here ∙ sym here
    | inr away ↦ elim (Bool-cases (has (resolved_building input).nodes x)) [
      | inr out ↦ out ∙ sym away
      | inl in_nodes ↦
          let (n, g) = get-some_of_has (resolved_building input).nodes x in_nodes in
          absurd (
            no_node n (sym (resolved-get input x) ∙ g)
              (get-none_of_has (subject_index input) x away))
    ]
  ]
    where
      no_node :
          (n : ResolvedAssetNode)
          → node_for (context_of input) x ≡ some n
          → get (subject_index input) x ≡ none
          → ⊥
      no_node n e away = cc (rw away at e)

  -- The snapshot has a node for an id exactly if some asset of the input has it.
  pub has-compile_snapshot :
      (x : Text) → has (compile_snapshot input).nodes x ≡ any (λ s. s.asset_id == x) input.subjects
  unfolding compile_snapshot
  has-compile_snapshot x =
      (broken-BreaksAll input).same x ∙ resolved-has x ∙ has-index_subjects [] input.subjects x

  some_injective : {n m : ResolvedAssetNode} → some n ≡ some m → n ≡ m
  some_injective e = cc

  -- A node with a parent is what `resolveSubject` gives for its asset.
  pub compile_snapshot-resolved :
      (x p : Text) (node : ResolvedAssetNode) (child : CompileSubject)
      → get (compile_snapshot input).nodes x ≡ some node
      → node.parent.parent_asset_id ≡ some p
      → get (subject_index input) x ≡ some child
      → node ≡ (resolve_subject child (context_of input)).node
  unfolding compile_snapshot
  compile_snapshot-resolved x p node child g e c = elim ((broken-BreaksAll input).pruned x) [
    | inl n ↦ cc (sym (ap parent_of_node g) ∙ n, e)
    | inr same ↦
        some_injective (sym g ∙ same ∙ resolved-get input x ∙ ap (node_of (context_of input)) c)
  ]

  -- In a snapshot, a parent that no person gave by hand agrees with its child on every enabled
  -- boundary: both state the value, and the values are equal.
  pub compile_snapshot-shares :
      (x p : Text) (node : ResolvedAssetNode) (child parent : CompileSubject)
      → get (compile_snapshot input).nodes x ≡ some node
      → node.parent.parent_asset_id ≡ some p
      → node.parent.ladder_source ≢ some manual
      → get (subject_index input) x ≡ some child
      → get (subject_index input) p ≡ some parent
      → All (SharesLevel child parent) (boundary_levels input.hierarchy)
  compile_snapshot-shares x p node child parent g e n c q =
      let is = compile_snapshot-resolved x p node child g e c in
      resolve_subject-shares (context_of input) child parent p q
        (sym (ap (λ m. m.parent.parent_asset_id) is) ∙ e)
        (λ m. n (ap (λ k. k.parent.ladder_source) is ∙ m))
