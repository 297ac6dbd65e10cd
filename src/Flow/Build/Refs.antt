-- ===== src/Flow/Build/Refs.antt =====
-- packages/electrical-flow/src/build.ts, `buildElectricalFlow`: the references that hang on the nodes.
use matchline.Base.{
  ◌≡◌, refl, ap, ◌∙◌, sym, inl, inr, Bool, ◌||◌, ◌&&◌, List, [], ◌∷◌, ◌++◌, Option, none, some,
  if◌then◌else◌, arith, Text, text_eq, text_beq_iff, ◌==◌, includes, any, sort, Map, get, put,
  get-put, Bool-cases, some_injective,
}
use matchline.Domain.Connectivity.{EdgeKind, feed, pmd_relation}
use matchline.Flow.Types.{FlowEnrichment, FlowEdgeRef, FlowEdge, FlowNode}
use matchline.Flow.Order.{compare_edge_refs}
use matchline.Flow.Nodes.{NodeDraft}
use matchline.Flow.Walk.Steps.{target_ids}
use matchline.Flow.Build.{
  RefMap, refs_of, push_ref, EdgeRefs, outgoing_ref, hung, hang_all, FlowBuilding, flow_node,
  node_added, build_nodes, is_feed,
}
use matchline.Flow.Build.Nodes.{counted-nodes}

-- The edge says that `a` feeds `b`.
abbrev pub feeds_to : Text → Text → FlowEdge → Bool
feeds_to a b e = is_feed e && (e.from_node_id == a && e.to_node_id == b)

abbrev targets_at : RefMap → Text → List Text
targets_at m a = target_ids (refs_of m a)

target_ids-concat :
    (refs : List FlowEdgeRef) (ref : FlowEdgeRef) (b : Text)
    → includes (target_ids (refs ++ ref ∷ [])) b
      ≡ (includes (target_ids refs) b || ref.node_id == b)
target_ids-concat [] ref b = ground arith
target_ids-concat (r ∷ refs) ref b = ground (arith, target_ids-concat refs ref b)

pub refs_of-put :
    (m : RefMap) (k a : Text) (refs : List FlowEdgeRef)
    → refs_of (put m k refs) a ≡ (if k == a then refs else refs_of m a)
refs_of-put m k a refs = elim (Bool-cases (k == a)) [
  | inl here ↦ rw (get-put m k a refs, here) refl
  | inr there ↦ rw (get-put m k a refs, there) refl
]

targets_at-push :
    (m : RefMap) (k a b : Text) (ref : FlowEdgeRef)
    → includes (targets_at (push_ref m k ref) a) b
      ≡ (includes (targets_at m a) b || (k == a && ref.node_id == b))
targets_at-push m k a b ref =
    let pushed = refs_of m k ++ ref ∷ [] in
    let read : includes (targets_at (push_ref m k ref) a) b
        ≡ includes (target_ids (if k == a then pushed else refs_of m a)) b =
      ap (λ l. includes (target_ids l) b) (refs_of-put m k a pushed) in
    elim (Bool-cases (k == a)) [
      | inl here ↦ ground (
        arith,
        read,
        here,
        target_ids-concat (refs_of m k) ref b,
        ap (λ x. includes (targets_at m x) b) ((text_beq_iff k a).0 here),
      )
      | inr there ↦ ground (arith, read, there)
    ]

hung-feeds :
    (k : EdgeKind) (e : FlowEdge) (r : EdgeRefs) (a b : Text)
    → e.kind ≡ k
    → includes (targets_at (hung k e r).feeds a) b
      ≡ (includes (targets_at r.feeds a) b || feeds_to a b e)
hung-feeds feed e r a b same = rw same (targets_at-push r.feeds e.from_node_id a b (outgoing_ref e))
hung-feeds pmd_relation e r a b same = rw same (ground arith)

pub hang_all-feeds :
    (edges : List FlowEdge) (r : EdgeRefs) (a b : Text)
    → includes (targets_at (hang_all edges r).feeds a) b
      ≡ (includes (targets_at r.feeds a) b || any (feeds_to a b) edges)
unfolding hang_all
hang_all-feeds [] r a b = ground arith
hang_all-feeds (e ∷ edges) r a b =
    let ih = hang_all-feeds edges (hung e.kind e r) a b in
    let step = hung-feeds e.kind e r a b refl in
    ih
    ∙ ap (λ t. t || any (feeds_to a b) edges) step
    ∙ or_assoc (includes (targets_at r.feeds a) b) (feeds_to a b e) (any (feeds_to a b) edges)
  where
    or_assoc : (x y z : Bool) → ((x || y) || z) ≡ (x || (y || z))
    or_assoc x y z = ground arith

-- The feeds of a node that is made are those that hang on it, and so is what feeds it.
abbrev HasFeeds : EdgeRefs → FlowBuilding → Type 0
HasFeeds r b =
    (x : Text) (n : FlowNode)
    → get b.nodes x ≡ some n
    → (n.feeds ≡ sort compare_edge_refs (refs_of r.feeds x))
      × (n.fed_by ≡ sort compare_edge_refs (refs_of r.fed_by x))

module _ (enrichment : Map Text FlowEnrichment) (drafts : Map Text NodeDraft) (r : EdgeRefs) where
  node_added-HasFeeds :
      (node_id : Text) (o : Option NodeDraft) (b : FlowBuilding)
      → HasFeeds r b
      → HasFeeds r (node_added enrichment drafts r node_id o b)
  unfolding flow_node
  node_added-HasFeeds node_id none b h x m e = h x m e
  node_added-HasFeeds node_id (some draft) b h x m e =
      let n : FlowNode = flow_node enrichment r node_id draft in
      let found : get (put b.nodes node_id n) x ≡ some m =
        sym (ap (λ (nodes : Map Text FlowNode). get nodes x) (counted-nodes n.match_status _))
        ∙ e in
      elim (Bool-cases (node_id == x)) [
        | inl here ↦
            let same : n ≡ m =
              some_injective (sym (get-put b.nodes node_id x n ∙ rw here refl) ∙ found) in
            let at_x = (text_beq_iff node_id x).0 here in
            (
              sym (ap (λ (v : FlowNode). v.feeds) same)
                  ∙ ap (λ y. sort compare_edge_refs (refs_of r.feeds y)) at_x,
              sym (ap (λ (v : FlowNode). v.fed_by) same)
                  ∙ ap (λ y. sort compare_edge_refs (refs_of r.fed_by y)) at_x,
            )
        | inr there ↦ h x m (sym (get-put b.nodes node_id x n ∙ rw there refl) ∙ found)
      ]

  pub build_nodes-HasFeeds :
      (ids : List Text) (b : FlowBuilding)
      → HasFeeds r b
      → HasFeeds r (build_nodes enrichment drafts r ids b)
  unfolding build_nodes
  build_nodes-HasFeeds [] b h = h
  build_nodes-HasFeeds (i ∷ ids) b h =
      build_nodes-HasFeeds ids (node_added enrichment drafts r i (get drafts i) b)
        (node_added-HasFeeds i (get drafts i) b h)
