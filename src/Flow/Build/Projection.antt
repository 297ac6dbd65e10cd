-- ===== src/Flow/Build/Projection.antt =====
-- packages/electrical-flow/src/build.ts, `buildElectricalFlow`: the roots and the statistics, told from the
-- edges.
use matchline.Base.{
  Perm, sort, subst, ◌≡◌, ◌↔◌, refl, ap, ap₂, not, ◌&&◌, leb, nat_beq, length_of_perm, has_of_get,
  ◌∙◌, sym, ◌+◌, true, false, List, [], some, arith, Text, text_eq, ◌==◌, includes, any, sort-perm,
  length, All, Map, get, get-some_of_has, has, keys,
}
use matchline.Domain.Connectivity.{ConnectivityObservation}
use matchline.Flow.Types.{
  model_confirmed, flow_only, pmd_only, FlowEnrichment, FlowEdge, FlowEdgeRef, FlowNode,
  ElectricalFlow, FlowIdentity,
}
use matchline.Flow.Order.{compare_edge_refs}
use matchline.Flow.Edges.Kept.{build_edges-Accounts}
use matchline.Flow.Walk.Cover.{IsKeyed}
use matchline.Flow.Build.{
  EdgeRefs, hang_all, is_source, is_multi_fed, unbuilt, node_ids_of, flow_cycles,
  build_electrical_flow,
}
use matchline.Flow.Build.Counting.{number_of, number_of_all, has_status}
use matchline.Flow.Build.Refs.{build_nodes-HasFeeds}
use matchline.Flow.Build.Edges.{
  count_if, leaves, enters, is_cycle, is_loop, anomalies-counts, some_picked, none_picked,
  hang_all-AreHung, refs_out, refs_in, length-refs, build_nodes-IsDistinct, All-of_get,
  number_of-keys,
}
use matchline.Flow.Build.Whole.{
  drafting, edge_pass, edge_refs, building, built_flow, building-IsBuilt, edges-JoinsNodes,
}

-- What the projection keeps to.
pub record IsFlow (observations : List ConnectivityObservation) (flow : ElectricalFlow)
    : Type 0 where
  pub keyed : IsKeyed flow.nodes
  pub joined :
      All
        (λ (e : FlowEdge).
          ((e.from_node_id == e.to_node_id) ≡ false)
          × (has flow.nodes e.from_node_id ≡ true)
          × (has flow.nodes e.to_node_id ≡ true))
        flow.edges
  pub hung_on :
      (x : Text) (n : FlowNode)
      → get flow.nodes x ≡ some n
      → Perm n.feeds (refs_out x flow.edges) × Perm n.fed_by (refs_in x flow.edges)
  pub rooted :
      (x : Text)
      → (includes flow.roots x ≡ true) ↔ (
          (has flow.nodes x ≡ true)
          × (any (leaves x) flow.edges ≡ true)
          × (any (enters x) flow.edges ≡ false))
  pub statuses :
      (flow.stats.model_confirmed_count ≡ number_of (has_status model_confirmed) flow.nodes)
      × (flow.stats.flow_only_count ≡ number_of (has_status flow_only) flow.nodes)
      × (flow.stats.pmd_only_count ≡ number_of (has_status pmd_only) flow.nodes)
      × (flow.stats.model_confirmed_count + flow.stats.flow_only_count + flow.stats.pmd_only_count
          ≡ flow.stats.node_count)
  pub counts :
      (flow.stats.node_count ≡ length flow.nodes)
      × (flow.stats.edge_count ≡ length flow.edges)
      × (flow.stats.multi_feed_node_count
          ≡ count_if (λ x. leb 2 (count_if (enters x) flow.edges)) (keys flow.nodes))
      × (flow.stats.cycle_count ≡ count_if is_cycle flow.flow_anomalies)
      × (flow.stats.edge_count + count_if is_loop flow.flow_anomalies ≡ length observations)

sorted-perm : {xs ys : List FlowEdgeRef} → xs ≡ sort compare_edge_refs ys → Perm xs ys
sorted-perm {xs} {ys} e = subst (λ l. Perm l ys) (sym e) (sort-perm compare_edge_refs ys)

module _ (observations : List ConnectivityObservation) (identity : FlowIdentity)
    (enrichment : Map Text FlowEnrichment) where
  abbrev flow : ElectricalFlow
  flow = built_flow observations identity enrichment

  flow-hung :
      (x : Text) (n : FlowNode)
      → get flow.nodes x ≡ some n
      → Perm n.feeds (refs_out x flow.edges) × Perm n.fed_by (refs_in x flow.edges)
  unfolding build_electrical_flow
  flow-hung x n found =
      let d = drafting observations identity enrichment in
      let pass = edge_pass observations identity enrichment in
      let no_refs : EdgeRefs = record { feeds = []; fed_by = []; pmd_relations = [] } in
      let (feeds, fed_by) =
        build_nodes-HasFeeds enrichment d.drafts (hang_all pass.edges no_refs) (node_ids_of d)
          unbuilt (λ x m e. let f : ⊥ = cc in absurd f) x n found in
      let (out, into) = hang_all-AreHung pass.edges no_refs x in
      (
        sorted-perm (feeds ∙ ap (sort compare_edge_refs) out),
        sorted-perm (fed_by ∙ ap (sort compare_edge_refs) into),
      )

  flow-counted :
      (x : Text) (n : FlowNode)
      → get flow.nodes x ≡ some n
      → (length n.feeds ≡ count_if (leaves x) flow.edges)
        × (length n.fed_by ≡ count_if (enters x) flow.edges)
  flow-counted x n found =
      let (out, into) = flow-hung x n found in
      let (long_out, long_in) = length-refs x flow.edges in
      (length_of_perm out ∙ long_out, length_of_perm into ∙ long_in)

  flow-source :
      (x : Text) (n : FlowNode)
      → get flow.nodes x ≡ some n
      → is_source n ≡ (any (leaves x) flow.edges && not (any (enters x) flow.edges))
  flow-source x n found =
      let (out, into) = flow-counted x n found in
      ap₂ (λ a b. leb 1 a && nat_beq b 0) out into
      ∙ ap₂ ◌&&◌ (some_picked (leaves x) flow.edges) (none_picked (enters x) flow.edges)

  flow-rooted :
      (x : Text)
      → (includes flow.roots x ≡ true) ↔ (
          (has flow.nodes x ≡ true)
          × (any (leaves x) flow.edges ≡ true)
          × (any (enters x) flow.edges ≡ false))
  unfolding build_electrical_flow
  flow-rooted x =
      let root = (building-IsBuilt observations identity enrichment).0.rooted x in
      (
        λ h.
            let (n, found, is) = root.0 h in
            let both = sym (flow-source x n found) ∙ is in
            (has_of_get flow.nodes x n found, ground (arith, both), ground (arith, both)),
        λ (known, out, into).
            let (n, found) = get-some_of_has flow.nodes x known in
            root.1 (n, found, flow-source x n found ∙ rw (out, into) refl),
      )

  flow-multi_fed :
      number_of is_multi_fed flow.nodes
      ≡ count_if (λ x. leb 2 (count_if (enters x) flow.edges)) (keys flow.nodes)
  unfolding build_electrical_flow
  flow-multi_fed =
      let d = drafting observations identity enrichment in
      let apart =
        build_nodes-IsDistinct enrichment d.drafts (edge_refs observations identity enrichment)
          (node_ids_of d) unbuilt tt in
      number_of-keys is_multi_fed (λ x. leb 2 (count_if (enters x) flow.edges)) flow.nodes
        (All-of_get (λ x n. is_multi_fed n ≡ leb 2 (count_if (enters x) flow.edges)) flow.nodes
          apart (λ x n found. ap (leb 2) (flow-counted x n found).1))

-- In what `buildElectricalFlow` returns, every node stands under its own id; each edge joins two different
-- nodes of the flow; what a node feeds has, in some order, one reference for each feed edge out of it, with
-- the edge and its target, and what feeds it has one for each feed edge into it, with the edge and its
-- source; and the roots are the nodes with a feed edge out of them and none into them. The statistics
-- count: the nodes; those of each of the three statuses, which share the nodes out; the nodes with two feed
-- edges or more into them; the edges; and the cycles among the anomalies. Each observation is an edge or a
-- self-loop among the anomalies. This holds for all observations and whatever identity makes of their tags.
pub build_electrical_flow-IsFlow :
    (observations : List ConnectivityObservation) (identity : FlowIdentity)
    (enrichment : Map Text FlowEnrichment)
    → IsFlow observations (build_electrical_flow observations identity enrichment)
unfolding build_electrical_flow
build_electrical_flow-IsFlow observations identity enrichment =
    let built = (building-IsBuilt observations identity enrichment).0 in
    let pass = edge_pass observations identity enrichment in
    let (loops, cycles) =
      anomalies-counts pass.self_loops
        (flow_cycles (node_ids_of (drafting observations identity enrichment)) pass.edges) in
    record {
      keyed = built.keyed;
      joined = edges-JoinsNodes observations identity enrichment;
      hung_on = flow-hung observations identity enrichment;
      rooted = flow-rooted observations identity enrichment;
      statuses = (
        built.confirmed,
        built.flow_side,
        built.pmd_side,
        omega (
          arith,
          built.confirmed,
          built.flow_side,
          built.pmd_side,
          number_of_all (building observations identity enrichment).nodes,
        ),
      );
      counts = (
        refl,
        refl,
        built.multi_fed ∙ flow-multi_fed observations identity enrichment,
        sym cycles,
        omega (arith, loops, (build_edges-Accounts observations identity).total),
      );
    }
