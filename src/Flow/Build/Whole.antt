-- ===== src/Flow/Build/Whole.antt =====
-- packages/electrical-flow/src/build.ts, `buildElectricalFlow`: its passes, its edges, and the walk over what it returns.
use matchline.Base.{
  ◌≡◌, ◌↔◌, refl, ap, ◌∙◌, sym, inl, inr, true, false, List, [], ◌∷◌, some, arith, Text, text_eq,
  text_beq_iff, compare_text, ◌==◌, includes, includes-sort, any, sort-perm, sort-IsDistinct,
  includes_of_perm, IsDistinct, put-IsDistinct, All, All-imp, Map, get, get-some_of_has, has, keys,
  Bool-cases, subst,
}
use matchline.Domain.Connectivity.{ConnectivityObservation}
use matchline.Flow.Types.{
  FlowEnrichment, FlowEdgeRef, FlowEdge, FlowNode, ElectricalFlow, FlowIdentity,
}
use matchline.Flow.Order.{compare_edge_refs}
use matchline.Flow.Nodes.{
  TagAppearance, Drafting, draft_tag, draft_all, collect_appearances, build_node_drafts,
}
use matchline.Flow.Edges.{EdgePass, build_edges}
use matchline.Flow.Edges.Kept.{build_edges-Accounts}
use matchline.Flow.Walk.{walk_source_to_load}
use matchline.Flow.Walk.Steps.{target_ids}
use matchline.Flow.Walk.Cover.{IsKeyed, visit_ids, Reaches, here, fed}
use matchline.Flow.Walk.Ends.{walk_source_to_load-reached}
use matchline.Flow.Build.{
  EdgeRefs, hang_all, FlowBuilding, build_nodes, unbuilt, node_ids_of, build_electrical_flow,
}
use matchline.Flow.Build.Nodes.{IsBuilt, build_nodes-IsBuilt}
use matchline.Flow.Build.Refs.{feeds_to, hang_all-feeds, build_nodes-HasFeeds}

draft_all-IsDistinct :
    (identity : FlowIdentity) (appearances : Map Text TagAppearance) (tags : List Text)
    (d : Drafting)
    → IsDistinct (keys d.drafts)
    → IsDistinct (keys (draft_all identity appearances tags d).drafts)
unfolding draft_all
draft_all-IsDistinct identity appearances [] d h = h
draft_all-IsDistinct identity appearances (tag ∷ tags) d h =
    draft_all-IsDistinct identity appearances tags (draft_tag identity appearances tag d)
      (put-IsDistinct d.drafts _ _ h)

module _ (observations : List ConnectivityObservation) (identity : FlowIdentity)
    (enrichment : Map Text FlowEnrichment) where
  abbrev pub drafting : Drafting
  drafting = build_node_drafts observations identity

  abbrev pub edge_pass : EdgePass
  edge_pass = build_edges observations drafting.node_id_by_tag

  abbrev pub edge_refs : EdgeRefs
  edge_refs = hang_all edge_pass.edges (record { feeds = []; fed_by = []; pmd_relations = [] })

  abbrev pub building : FlowBuilding
  building = build_nodes enrichment drafting.drafts edge_refs (node_ids_of drafting) unbuilt

  abbrev pub built_flow : ElectricalFlow
  built_flow = build_electrical_flow observations identity enrichment

  drafts-IsDistinct : IsDistinct (keys drafting.drafts)
  unfolding build_node_drafts
  drafts-IsDistinct =
      draft_all-IsDistinct identity (collect_appearances observations)
        (keys (collect_appearances observations)) (record { node_id_by_tag = []; drafts = [] }) tt

  pub building-IsBuilt :
      IsBuilt building × ((x : Text) → has building.nodes x ≡ has drafting.drafts x)
  unfolding node_ids_of
  building-IsBuilt =
      let (built, nodes) =
        build_nodes-IsBuilt enrichment drafting.drafts edge_refs (node_ids_of drafting) unbuilt
          (sort-IsDistinct compare_text (keys drafting.drafts) drafts-IsDistinct) (λ x h. refl)
          (record {
            keyed = λ k n e. cc;
            confirmed = refl;
            flow_side = refl;
            pmd_side = refl;
            multi_fed = refl;
            rooted = λ x. (λ h. cc, λ (n, e, root). cc);
          }) in
      (built, λ x. ground (arith, nodes x, includes-sort compare_text (keys drafting.drafts) x))

  -- The edge joins two nodes of the flow that are different.
  abbrev pub JoinsNodes : FlowEdge → Type 0
  JoinsNodes e =
      ((e.from_node_id == e.to_node_id) ≡ false)
      × (has built_flow.nodes e.from_node_id ≡ true)
      × (has built_flow.nodes e.to_node_id ≡ true)

  pub edges-JoinsNodes : All JoinsNodes built_flow.edges
  unfolding build_electrical_flow
  edges-JoinsNodes =
      let (built, nodes) = building-IsBuilt in
      All-imp (λ e (apart, from, to). (apart, nodes e.from_node_id ∙ from, nodes e.to_node_id ∙ to))
        edge_pass.edges (build_edges-Accounts observations identity).joined

  -- `a` feeds `b`, when an edge says so.
  abbrev pub Feeds : Text → Text → Type 0
  Feeds a b = any (feeds_to a b) built_flow.edges ≡ true

  feeds-of_node :
      (a b : Text) (n : FlowNode)
      → get built_flow.nodes a ≡ some n
      → includes (target_ids n.feeds) b ≡ any (feeds_to a b) built_flow.edges
  unfolding build_electrical_flow
  feeds-of_node a b n found =
      let made =
        build_nodes-HasFeeds enrichment drafting.drafts edge_refs (node_ids_of drafting) unbuilt
          (λ x m e. let f : ⊥ = cc in absurd f) a n found in
      ap (λ refs. includes (target_ids refs) b) made.0
      ∙ includes_of_perm (λ (r : FlowEdgeRef). r.node_id) b (sort-perm compare_edge_refs _)
      ∙ hang_all-feeds edge_pass.edges (record { feeds = []; fed_by = []; pmd_relations = [] }) a b

  any_ends :
      (edges : List FlowEdge) (a b : Text)
      → All JoinsNodes edges
      → any (feeds_to a b) edges ≡ true
      → (has built_flow.nodes a ≡ true) × (has built_flow.nodes b ≡ true)
  any_ends [] a b _ h = cc
  any_ends (e ∷ edges) a b ((apart, from, to), js) h = elim (Bool-cases (feeds_to a b e)) [
    | inl says ↦
        let is_from : e.from_node_id ≡ a = (text_beq_iff e.from_node_id a).0 (ground arith) in
        let is_to : e.to_node_id ≡ b = (text_beq_iff e.to_node_id b).0 (ground arith) in
        (
          subst (λ x. has built_flow.nodes x ≡ true) is_from from,
          subst (λ x. has built_flow.nodes x ≡ true) is_to to,
        )
    | inr silent ↦ any_ends edges a b js (ground (arith, h, silent))
  ]

  -- What the feed edges lead to from a node, the node included.
  pub data FedFrom (root : Text) : Text → Type 0 where
    start : FedFrom root root
    along : {a b : Text} → FedFrom root a → Feeds a b → FedFrom root b

  Reaches-FedFrom : (root b : Text) → Reaches built_flow.nodes root b → FedFrom root b
  Reaches-FedFrom root b (here n found) = start
  Reaches-FedFrom root b (fed {a} n m before found target is_node) =
      along (Reaches-FedFrom root a before) (sym (feeds-of_node a b n found) ∙ target)

  FedFrom-Reaches :
      (root b : Text)
      → has built_flow.nodes root ≡ true
      → FedFrom root b
      → Reaches built_flow.nodes root b
  FedFrom-Reaches root b known start =
      let (n, found) = get-some_of_has built_flow.nodes root known in here n found
  FedFrom-Reaches root b known (along {a} before feeds) =
      let (has_a, has_b) = any_ends built_flow.edges a b edges-JoinsNodes feeds in
      let (n, found) = get-some_of_has built_flow.nodes a has_a in
      let (m, is_node) = get-some_of_has built_flow.nodes b has_b in
      fed n m (FedFrom-Reaches root a known before) found (feeds-of_node a b n found ∙ feeds)
        is_node

  built_flow-IsKeyed : IsKeyed built_flow.nodes
  unfolding build_electrical_flow
  built_flow-IsKeyed = building-IsBuilt.0.keyed

-- The walk from a node of a built flow yields no node twice, and it yields exactly what the feed edges lead
-- to from that node, the node included; PMD relations are not followed.
pub walk_source_to_load-built :
    (observations : List ConnectivityObservation) (identity : FlowIdentity)
    (enrichment : Map Text FlowEnrichment) (root : Text)
    → has (build_electrical_flow observations identity enrichment).nodes root ≡ true
    → IsDistinct (
        visit_ids
          (walk_source_to_load (build_electrical_flow observations identity enrichment) root))
      × ((b : Text)
          → (includes
                (visit_ids (
                  walk_source_to_load
                    (build_electrical_flow observations identity enrichment)
                    root))
                b
              ≡ true)
            ↔ FedFrom observations identity enrichment root b)
walk_source_to_load-built observations identity enrichment root known =
    let (distinct, reached) =
      walk_source_to_load-reached (built_flow observations identity enrichment) root
        (built_flow-IsKeyed observations identity enrichment) in
    (
      distinct,
      λ b. (
        λ h. Reaches-FedFrom observations identity enrichment root b ((reached b).0 h),
        λ f. (reached b).1 (FedFrom-Reaches observations identity enrichment root b known f),
      ),
    )
