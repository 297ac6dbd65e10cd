-- ===== src/Ssm/Snapshot/Nodes.antt =====
-- packages/ssm-compiler/src/compile.ts, `compileSnapshot`: the index of the assets and the loop that
-- resolves each of them.
use matchline.Base.{
  ◌≡◌, refl, ◌∙◌, List, [], ◌∷◌, Option, none, some, if◌then◌else◌, ◌==◌, arith, Text, text_eq,
  text_beq_iff, compare_text, Map, get, get-put, get-put_new, get-none_of_has, keys, put_new,
  put-IsDistinct, IsDistinct, includes, includes-sort,
}
use matchline.Domain.Snapshot.{ResolvedAssetNode}
use matchline.Ssm.Fold.{CompileSubject}
use matchline.Ssm.Ladder.{WalkContext}
use matchline.Ssm.Resolve.{resolve_subject}
use matchline.Ssm.Snapshot.{
  CompileInput, index_subjects, context_of, Building, resolve_next, resolve_all, no_nodes,
  ordered_ids, resolved_building, subject_index,
}

-- Each asset stands under its own id.
abbrev IsKeyed : Map Text CompileSubject → Type 0
IsKeyed by_id = (x : Text) (s : CompileSubject) → get by_id x ≡ some s → s.asset_id ≡ x

put_new-IsKeyed :
    (by_id : Map Text CompileSubject) (s : CompileSubject)
    → IsKeyed by_id
    → IsKeyed (put_new by_id s.asset_id s)
put_new-IsKeyed by_id s k x t e =
    ground (arith, get-put_new by_id s.asset_id x s, k x t, text_beq_iff s.asset_id x)

index_subjects-IsKeyed :
    (by_id : Map Text CompileSubject) (subjects : List CompileSubject)
    → IsKeyed by_id
    → IsKeyed (index_subjects by_id subjects)
unfolding index_subjects
index_subjects-IsKeyed by_id [] k = k
index_subjects-IsKeyed by_id (s ∷ subjects) k =
    index_subjects-IsKeyed (put_new by_id s.asset_id s) subjects (put_new-IsKeyed by_id s k)

pub subject_index-keyed :
    (input : CompileInput) (x : Text) (s : CompileSubject)
    → get (subject_index input) x ≡ some s
    → s.asset_id ≡ x
subject_index-keyed input = index_subjects-IsKeyed [] input.subjects (λ x s e. cc)

abbrev pub node_of : WalkContext → Option CompileSubject → Option ResolvedAssetNode
node_of ctx none = none
node_of ctx (some subject) = some (resolve_subject subject ctx).node

-- The node that `resolveSubject` gives for an id.
abbrev pub node_for : WalkContext → Text → Option ResolvedAssetNode
node_for ctx x = node_of ctx (get ctx.subject_by_id x)

abbrev or_else : Option ResolvedAssetNode → Option ResolvedAssetNode → Option ResolvedAssetNode
or_else none o = o
or_else (some n) o = some n

module _ (ctx : WalkContext) where
  resolve_next-get :
      (b : Building) (i : Text) (o : Option CompileSubject) (x : Text)
      → get (resolve_next ctx b i o).nodes x
        ≡ (if i == x then or_else (node_of ctx o) (get b.nodes x) else get b.nodes x)
  resolve_next-get b i none x = ground arith
  resolve_next-get b i (some s) x = get-put b.nodes i x _

  resolve_all-get :
      (b : Building) (ids : List Text) (x : Text)
      → get (resolve_all ctx b ids).nodes x
        ≡ (if includes ids x then or_else (node_for ctx x) (get b.nodes x) else get b.nodes x)
  unfolding resolve_all
  resolve_all-get b [] x = refl
  resolve_all-get b (i ∷ ids) x =
      resolve_all-get (resolve_next ctx b i (get ctx.subject_by_id i)) ids x
      ∙ rw (resolve_next-get b i (get ctx.subject_by_id i) x) (ground (arith, text_beq_iff i x))

  resolve_all-IsDistinct :
      (b : Building) (ids : List Text)
      → IsDistinct (keys b.nodes)
      → IsDistinct (keys (resolve_all ctx b ids).nodes)
  unfolding resolve_all
  resolve_all-IsDistinct b [] d = d
  resolve_all-IsDistinct b (i ∷ ids) d =
      resolve_all-IsDistinct (resolve_next ctx b i (get ctx.subject_by_id i)) ids
        (next (get ctx.subject_by_id i))
    where
      next : (o : Option CompileSubject) → IsDistinct (keys (resolve_next ctx b i o).nodes)
      next none = d
      next (some s) = put-IsDistinct b.nodes i _ d

pub resolved-IsDistinct : (input : CompileInput) → IsDistinct (keys (resolved_building input).nodes)
resolved-IsDistinct input =
    resolve_all-IsDistinct (context_of input) no_nodes (ordered_ids input) tt

-- Each asset of the compile has one node, which is what `resolveSubject` gives for it.
pub resolved-get :
    (input : CompileInput) (x : Text)
    → get (resolved_building input).nodes x ≡ node_for (context_of input) x
resolved-get input x =
    resolve_all-get (context_of input) no_nodes (ordered_ids input) x
    ∙ ground (
      arith,
      includes-sort compare_text (keys (subject_index input)) x,
      get-none_of_has (subject_index input) x,
    )
