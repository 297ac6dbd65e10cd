-- ===== src/Ssm/Snapshot/Parents.antt =====
-- packages/ssm-compiler/src/compile.ts, `compileSnapshot`: the parents that the resolved nodes name.
use matchline.Base.{
  ◌≡◌, refl, ◌∙◌, true, List, [], ◌∷◌, Option, none, some, arith, Text, text_eq, text_beq_iff, get,
  get-some_of_has, has, has_of_get, any,
}
use matchline.Domain.Ladder.{LadderSourceKind, source_eq}
use matchline.Ssm.Fold.{CompileSubject}
use matchline.Ssm.Ladder.{WalkContext, Held}
use matchline.Ssm.Ladder.Names.{names}
use matchline.Ssm.Resolve.{resolve_subject}
use matchline.Ssm.Resolve.Decisions.{Wins-IsSole}
use matchline.Ssm.Resolve.Placement.{resolve_subject-parent_iff}
use matchline.Ssm.Cycles.Links.{parent_of_node, IsClosed}
use matchline.Ssm.Snapshot.{CompileInput, context_of, resolved_building, subject_index}
use matchline.Ssm.Snapshot.Nodes.{resolved-get, node_of}

known_of_names :
    (ctx : WalkContext) (tier : LadderSourceKind) (q : Text) (pool : List Held)
    → any (names ctx tier q) pool ≡ true
    → has ctx.subject_by_id q ≡ true
known_of_names ctx tier q [] n = cc
known_of_names ctx tier q (h ∷ pool) n =
    ground (arith, known_of_names ctx tier q pool, text_beq_iff h.claim.target_asset_id q)

-- A parent is an asset of the compile.
pub parent-known :
    (ctx : WalkContext) (subject : CompileSubject) (q : Text)
    → (resolve_subject subject ctx).node.parent.parent_asset_id ≡ some q
    → has ctx.subject_by_id q ≡ true
parent-known ctx subject q e =
    let (tier, s) = (resolve_subject-parent_iff ctx subject q).0 e in
    known_of_names ctx tier q _ (Wins-IsSole ctx subject s.wins).named

module _ (input : CompileInput) where
  pub resolved-known :
      (x : Text) → has (subject_index input) x ≡ true → has (resolved_building input).nodes x ≡ true
  resolved-known x h =
      let (s, found) = get-some_of_has (subject_index input) x h in
      has_of_get (resolved_building input).nodes x (resolve_subject s (context_of input)).node
        (resolved-get input x ∙ rw found refl)

  pub resolved-IsClosed : IsClosed (resolved_building input).nodes
  resolved-IsClosed x p e =
      resolved-known p (closed (get (subject_index input) x) (rw (resolved-get input x) at e))
    where
      closed :
          (o : Option CompileSubject)
          → parent_of_node (node_of (context_of input) o) ≡ some p
          → has (subject_index input) p ≡ true
      closed none e = cc
      closed (some s) e = parent-known (context_of input) s p e
