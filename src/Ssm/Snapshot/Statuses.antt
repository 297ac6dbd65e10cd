-- ===== src/Ssm/Snapshot/Statuses.antt =====
-- packages/ssm-compiler/src/compile.ts, `compileSnapshot`: the status of a node.
use matchline.Base.{
  some_injective, ◌≡◌, sym, ◌∙◌, inl, inr, Option, none, some, Text, text_eq, get, subst,
}
use matchline.Domain.Ladder.{ParentLadderConfig}
use matchline.Domain.Snapshot.{ResolvedAssetNode}
use matchline.Ssm.Fold.{CompileSubject}
use matchline.Ssm.Cycles.{downgrade}
use matchline.Ssm.Resolve.Statuses.{IsSettled, resolve_subject-IsSettled}
use matchline.Ssm.Snapshot.{CompileInput, context_of, subject_index, compile_snapshot, ladder_of}
use matchline.Ssm.Snapshot.Nodes.{resolved-get, node_of}
use matchline.Ssm.Snapshot.Acyclic.{broken-BreaksAll}

downgrade-IsSettled :
    (m : ResolvedAssetNode) (ladder : ParentLadderConfig) → IsSettled (downgrade m ladder).parent
unfolding downgrade
downgrade-IsSettled m ladder = (λ e. cc, λ (q, e). cc)

module _ (input : CompileInput) where
  node_of-IsSettled :
      (o : Option CompileSubject) (node : ResolvedAssetNode)
      → node_of (context_of input) o ≡ some node
      → IsSettled node.parent
  node_of-IsSettled none node e = cc
  node_of-IsSettled (some s) node e =
      subst (λ (n : ResolvedAssetNode). IsSettled n.parent) (some_injective e)
        (resolve_subject-IsSettled (context_of input) s)

  -- In a snapshot a node is `resolved` exactly if it has a parent, also after cycles were broken.
  pub compile_snapshot-IsSettled :
      (x : Text) (node : ResolvedAssetNode)
      → get (compile_snapshot input).nodes x ≡ some node
      → IsSettled node.parent
  unfolding compile_snapshot
  compile_snapshot-IsSettled x node g = elim ((broken-BreaksAll input).downgraded x) [
    | inl (m, d) ↦
        subst (λ (n : ResolvedAssetNode). IsSettled n.parent) (some_injective (sym d ∙ g))
          (downgrade-IsSettled m (ladder_of input.ladder))
    | inr same ↦
        node_of-IsSettled (get (subject_index input) x) node
          (sym (resolved-get input x) ∙ sym same ∙ g)
  ]
