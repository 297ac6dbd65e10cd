-- ===== src/Flow/Build.antt =====
-- packages/electrical-flow/src/build.ts, `buildElectricalFlow` and `buildElectricalFlowFromIndex`.
-- An `enrichment` that is left out is an empty map.
pub mod Counting
pub mod Nodes
pub mod Refs
pub mod Edges
pub mod Whole
pub mod Projection
use matchline.Base.{
  ℕ, ◌+◌, ◌&&◌, Bool, true, false, List, [], ◌∷◌, ◌++◌, map, Option, none, some, if◌then◌else◌, leb,
  nat_beq, Text, text_eq, compare_text, sort, length, keep_if, Map, get, put, keys,
}
use matchline.Domain.Connectivity.{EdgeKind, feed, pmd_relation, ConnectivityObservation}
use matchline.Domain.Identity.{IdentityOutcome}
use matchline.Identity.Build.{IdentityIndex}
use matchline.Identity.Resolve.{resolve_tags}
use matchline.Flow.Types.{
  FlowMatchStatus, model_confirmed, flow_only, pmd_only, FlowEnrichment, outgoing, incoming,
  FlowEdgeRef, FlowNode, FlowEdge, SelfLoopAnomaly, FlowAnomaly, self_loop, cycle, FlowStats,
  ElectricalFlow, FlowIdentity,
}
use matchline.Flow.Order.{compare_edge_refs, compare_paths}
use matchline.Flow.Nodes.{NodeDraft, Drafting, build_node_drafts, collect_appearances}
use matchline.Flow.Edges.{EdgePass, build_edges}
use matchline.Flow.Cycles.{FeedAdjacency, build_feed_adjacency, strongly_connected_components}
use matchline.Flow.Loops.{representative_cycle}

abbrev pub RefMap : Type 0
RefMap = Map Text (List FlowEdgeRef)

abbrev or_no_refs : Option (List FlowEdgeRef) → List FlowEdgeRef
or_no_refs none = []
or_no_refs (some refs) = refs

-- `map.get(nodeId) ?? []`
abbrev pub refs_of : RefMap → Text → List FlowEdgeRef
refs_of m node_id = or_no_refs (get m node_id)

abbrev pub push_ref : RefMap → Text → FlowEdgeRef → RefMap
push_ref m node_id ref = put m node_id (refs_of m node_id ++ ref ∷ [])

-- `feeds`, `fedBy` and `pmdRelations`.
pub record EdgeRefs : Type 0 where
  pub feeds : RefMap
  pub fed_by : RefMap
  pub pmd_relations : RefMap

abbrev pub outgoing_ref : FlowEdge → FlowEdgeRef
outgoing_ref edge = record {
  edge_id = edge.edge_id;
  node_id = edge.to_node_id;
  direction = outgoing;
}

abbrev pub incoming_ref : FlowEdge → FlowEdgeRef
incoming_ref edge = record {
  edge_id = edge.edge_id;
  node_id = edge.from_node_id;
  direction = incoming;
}

-- The body of the loop over the edges.
abbrev pub hung : EdgeKind → FlowEdge → EdgeRefs → EdgeRefs
hung feed edge r = record {
  feeds = push_ref r.feeds edge.from_node_id (outgoing_ref edge);
  fed_by = push_ref r.fed_by edge.to_node_id (incoming_ref edge);
  pmd_relations = r.pmd_relations;
}
hung pmd_relation edge r = record r {
  pmd_relations =
      push_ref (push_ref r.pmd_relations edge.from_node_id (outgoing_ref edge)) edge.to_node_id
        (incoming_ref edge);
}

unfoldable pub hang_all : List FlowEdge → EdgeRefs → EdgeRefs
hang_all [] r = r
hang_all (edge ∷ edges) r = hang_all edges (hung edge.kind edge r)

abbrev pub attached_to : Map Text FlowEnrichment → Option Text → Option FlowEnrichment
attached_to enrichment none = none
attached_to enrichment (some asset_id) = get enrichment asset_id

unfoldable pub flow_node : Map Text FlowEnrichment → EdgeRefs → Text → NodeDraft → FlowNode
unfolding compare_text compare_edge_refs
flow_node enrichment r node_id draft = record {
  node_id = node_id;
  tag = draft.display_tag;
  evidence_tags = sort compare_text draft.evidence_tags;
  match_status = draft.match_status;
  asset_id = draft.asset_id;
  identity_tier = draft.identity_tier;
  enrichment = attached_to enrichment draft.asset_id;
  feeds = sort compare_edge_refs (refs_of r.feeds node_id);
  fed_by = sort compare_edge_refs (refs_of r.fed_by node_id);
  pmd_relations = sort compare_edge_refs (refs_of r.pmd_relations node_id);
}

-- `nodes`, `roots` and the counters.
pub record FlowBuilding : Type 0 where
  pub nodes : Map Text FlowNode
  pub roots : List Text
  pub model_confirmed_count : ℕ
  pub flow_only_count : ℕ
  pub pmd_only_count : ℕ
  pub multi_feed_node_count : ℕ

-- The `switch` on the status.
abbrev pub counted : FlowMatchStatus → FlowBuilding → FlowBuilding
counted model_confirmed b = record b { model_confirmed_count = b.model_confirmed_count + 1 }
counted flow_only b = record b { flow_only_count = b.flow_only_count + 1 }
counted pmd_only b = record b { pmd_only_count = b.pmd_only_count + 1 }

abbrev pub is_source : FlowNode → Bool
is_source node = leb 1 (length node.feeds) && nat_beq (length node.fed_by) 0

abbrev pub is_multi_fed : FlowNode → Bool
is_multi_fed node = leb 2 (length node.fed_by)

-- The body of the loop over `nodeIds`, for the node that is made.
abbrev pub with_node : Text → FlowNode → FlowBuilding → FlowBuilding
with_node node_id node b = counted node.match_status (record b {
  nodes = put b.nodes node_id node;
  roots = if is_source node then b.roots ++ node_id ∷ [] else b.roots;
  multi_feed_node_count =
      if is_multi_fed node then b.multi_feed_node_count + 1 else b.multi_feed_node_count;
})

module _ (enrichment : Map Text FlowEnrichment) (drafts : Map Text NodeDraft) (r : EdgeRefs) where
  abbrev pub node_added : Text → Option NodeDraft → FlowBuilding → FlowBuilding
  node_added node_id none b = b
  node_added node_id (some draft) b = with_node node_id (flow_node enrichment r node_id draft) b

  unfoldable pub build_nodes : List Text → FlowBuilding → FlowBuilding
  unfolding flow_node
  build_nodes [] b = b
  build_nodes (node_id ∷ node_ids) b =
      build_nodes node_ids (node_added node_id (get drafts node_id) b)

abbrev pub unbuilt : FlowBuilding
unbuilt = record {
  nodes = [];
  roots = [];
  model_confirmed_count = 0;
  flow_only_count = 0;
  pmd_only_count = 0;
  multi_feed_node_count = 0;
}

abbrev pub is_feed : FlowEdge → Bool
is_feed edge = elim edge.kind [ feed ↦ true | pmd_relation ↦ false ]

unfoldable pub flow_cycles : List Text → List FlowEdge → List (List Text)
unfolding build_feed_adjacency strongly_connected_components representative_cycle compare_paths
flow_cycles node_ids edges =
    let adjacency : FeedAdjacency = build_feed_adjacency node_ids (keep_if is_feed edges) in
    sort compare_paths (
      map (λ component. representative_cycle component adjacency)
        (strongly_connected_components node_ids adjacency))

-- What is returned, from the results of the passes.
abbrev pub projected :
    FlowIdentity → EdgePass → FlowBuilding → (cycles : List (List Text)) → ElectricalFlow
projected identity pass b cycles = record {
  nodes = b.nodes;
  edges = pass.edges;
  roots = b.roots;
  review_items = identity.review_items;
  flow_anomalies = map self_loop pass.self_loops ++ map cycle cycles;
  stats = record {
    node_count = length b.nodes;
    edge_count = length pass.edges;
    model_confirmed_count = b.model_confirmed_count;
    flow_only_count = b.flow_only_count;
    pmd_only_count = b.pmd_only_count;
    multi_feed_node_count = b.multi_feed_node_count;
    cycle_count = length cycles;
  };
}

unfoldable pub node_ids_of : Drafting → List Text
unfolding compare_text
node_ids_of d = sort compare_text (keys d.drafts)

unfoldable pub build_electrical_flow :
    List ConnectivityObservation → FlowIdentity → Map Text FlowEnrichment → ElectricalFlow
unfolding build_node_drafts build_edges hang_all build_nodes flow_cycles node_ids_of
build_electrical_flow observations identity enrichment =
    let d : Drafting = build_node_drafts observations identity in
    let pass : EdgePass = build_edges observations d.node_id_by_tag in
    let r : EdgeRefs =
      hang_all pass.edges (record { feeds = []; fed_by = []; pmd_relations = [] }) in
    projected identity pass (build_nodes enrichment d.drafts r (node_ids_of d) unbuilt)
      (flow_cycles (node_ids_of d) pass.edges)

-- `tags.forEach((tag, position) => …)`
unfoldable pub outcomes_by_tag :
    Map Text IdentityOutcome → List Text → List IdentityOutcome → Map Text IdentityOutcome
outcomes_by_tag m [] outcomes = m
outcomes_by_tag m (tag ∷ tags) [] = m
outcomes_by_tag m (tag ∷ tags) (outcome ∷ outcomes) =
    outcomes_by_tag (put m tag outcome) tags outcomes

unfoldable pub build_electrical_flow_from_index :
    (to_upper_case : Text → Text)
    → List ConnectivityObservation
    → IdentityIndex
    → Map Text FlowEnrichment
    → ElectricalFlow
unfolding build_electrical_flow collect_appearances resolve_tags outcomes_by_tag compare_text
build_electrical_flow_from_index to_upper_case observations index enrichment =
    let tags : List Text = sort compare_text (keys (collect_appearances observations)) in
    let resolved = resolve_tags to_upper_case index tags in
    let outcomes : Map Text IdentityOutcome = outcomes_by_tag [] tags resolved.outcomes in
    build_electrical_flow observations
      (record { outcomes = get outcomes; review_items = resolved.review_items }) enrichment
