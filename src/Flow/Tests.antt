-- ===== src/Flow/Tests.antt =====
-- packages/electrical-flow: a ring of panels fed from a board, runs on it, and instances of the theorems.
use matchline.Base.{
  ◌≡◌, ◌↔◌, ◌≤◌, ◌≢◌, refl, true, List, [], ◌∷◌, none, Ordering, Text, text, text_eq, compare_text,
  includes, has, All, IsDistinct,
}
use matchline.Domain.Claim.{Provenance, sheet_row, powers}
use matchline.Domain.Connectivity.{
  EdgeKind, feed, pmd_relation, cable_schedule, ConnectivityObservation,
}
use matchline.Flow.Types.{FlowIdentity, ElectricalFlow}
use matchline.Flow.Order.{compare_paths, compare_edges, compare_edge_refs, compare_flow_provenance}
use matchline.Ssm.Order.{compare_source_ref, compare_optional}
use matchline.Flow.Nodes.{appearances_from, collect_appearances, draft_all, build_node_drafts}
use matchline.Flow.Edges.{connect_all, numbered_edges, build_edges}
use matchline.Flow.Edges.Kept.{Accounts, build_edges-Accounts}
use matchline.Flow.Walk.{walk_source_to_load}
use matchline.Flow.Walk.Cover.{visit_ids}
use matchline.Flow.Cycles.{
  FeedAdjacency, no_successors, with_arcs, sorted_targets, build_feed_adjacency, popped_to,
  close_component, arcs, explore, explore_root, explore_roots, unexplored,
  strongly_connected_components,
}
use matchline.Flow.Cycles.Explored.{explore_roots-ends}
use matchline.Flow.Cycles.Apart.{times_in, IsComponent, strongly_connected_components-apart}
use matchline.Flow.Loops.{
  smallest_from, smallest_rotation, scan_targets, path_up, search_loop, representative_cycle,
}
use matchline.Flow.Loops.Paths.{IsLoop}
use matchline.Flow.Loops.Found.{Leads, begin, onto, representative_cycle-IsLoop}
use matchline.Flow.Loops.Rotation.{IsRotation, smallest_rotation-names}
use matchline.Flow.Build.{
  hang_all, flow_node, build_nodes, flow_cycles, node_ids_of, build_electrical_flow,
}
use matchline.Flow.Build.Whole.{FedFrom, walk_source_to_load-built}
use matchline.Flow.Build.Projection.{IsFlow, build_electrical_flow-IsFlow}
use matchline.Identity.Normalize.{fill_of}
use matchline.Base.{digits}

abbrev row : Provenance
row = record {
  source_file = text "cables.xlsx";
  source_ref = sheet_row (text "Cables") 2;
  property_or_column = none;
  rule = none;
  fallback_rung = none;
  manual_decision = none;
  input_revision = none;
  profile_revision = none;
}

abbrev observed : EdgeKind → Text → Text → ConnectivityObservation
observed kind from_tag to_tag = record {
  kind = kind;
  from_tag = from_tag;
  to_tag = to_tag;
  via = none;
  source_kind = cable_schedule;
  relationship_type = powers;
  provenance = row;
}

-- The board feeds P1; P1 and P2 feed each other; an instrument stands at P2.
abbrev ring : List ConnectivityObservation
ring =
    observed feed (text "MSB") (text "P1")
    ∷ observed feed (text "P1") (text "P2")
    ∷ observed feed (text "P2") (text "P1")
    ∷ observed pmd_relation (text "TT1") (text "P2")
    ∷ []

abbrev nobody : FlowIdentity
nobody = record { outcomes = λ tag. none; review_items = [] }

abbrev ring_flow : ElectricalFlow
ring_flow = build_electrical_flow ring nobody []

ring_roots : ring_flow.roots ≡ text "tag:MSB" ∷ []
unfolding build_electrical_flow build_node_drafts draft_all collect_appearances appearances_from
    build_edges connect_all numbered_edges hang_all build_nodes flow_node node_ids_of compare_edges
    compare_edge_refs compare_flow_provenance compare_source_ref compare_optional compare_text
    digits fill_of
ring_roots = refl

ring_cycles : flow_cycles (text "a" ∷ text "b" ∷ text "c" ∷ []) [] ≡ []
unfolding flow_cycles build_feed_adjacency no_successors with_arcs sorted_targets
    strongly_connected_components explore_roots explore_root explore close_component popped_to arcs
    compare_paths compare_text
ring_cycles = refl

abbrev triangle : FeedAdjacency
triangle =
    (text "b", text "c" ∷ [])
    ∷ (text "c", text "a" ∷ text "d" ∷ [])
    ∷ (text "a", text "b" ∷ [])
    ∷ (text "d", [])
    ∷ []

abbrev triangle_nodes : List Text
triangle_nodes = text "a" ∷ text "b" ∷ text "c" ∷ text "d" ∷ []

triangle_components :
    strongly_connected_components triangle_nodes triangle
    ≡ (text "a" ∷ text "b" ∷ text "c" ∷ []) ∷ []
unfolding strongly_connected_components explore_roots explore_root explore close_component popped_to
    arcs compare_paths compare_text
triangle_components = refl

triangle_cycle :
    representative_cycle (text "a" ∷ text "b" ∷ text "c" ∷ []) triangle
    ≡ text "a" ∷ text "b" ∷ text "c" ∷ []
unfolding representative_cycle search_loop scan_targets path_up smallest_rotation smallest_from
    compare_paths compare_text
triangle_cycle = refl

build_edges-Accounts_example :
    Accounts
      (build_node_drafts ring nobody)
      4
      (build_edges ring (build_node_drafts ring nobody).node_id_by_tag)
build_edges-Accounts_example = build_edges-Accounts ring nobody

build_electrical_flow-IsFlow_example : IsFlow ring ring_flow
build_electrical_flow-IsFlow_example = build_electrical_flow-IsFlow ring nobody []

board_known : has ring_flow.nodes (text "tag:MSB") ≡ true
unfolding build_electrical_flow build_node_drafts draft_all collect_appearances appearances_from
    build_edges connect_all numbered_edges hang_all build_nodes flow_node node_ids_of compare_edges
    compare_edge_refs compare_flow_provenance compare_source_ref compare_optional compare_text
    digits fill_of
board_known = refl

walk_source_to_load-built_example :
    IsDistinct (visit_ids (walk_source_to_load ring_flow (text "tag:MSB")))
    × ((b : Text)
        → (includes (visit_ids (walk_source_to_load ring_flow (text "tag:MSB"))) b ≡ true)
          ↔ FedFrom ring nobody [] (text "tag:MSB") b)
walk_source_to_load-built_example =
    walk_source_to_load-built ring nobody [] (text "tag:MSB") board_known

explore_roots-ends_example :
    ((explore_roots triangle unexplored triangle_nodes).frames ≡ [])
    × ((x : Text)
        → includes triangle_nodes x ≡ true
        → has (explore_roots triangle unexplored triangle_nodes).index x ≡ true)
explore_roots-ends_example = explore_roots-ends triangle_nodes triangle

strongly_connected_components-apart_example :
    ((x : Text) → times_in x (strongly_connected_components triangle_nodes triangle) ≤ 1)
    × All IsComponent (strongly_connected_components triangle_nodes triangle)
strongly_connected_components-apart_example =
    strongly_connected_components-apart triangle_nodes triangle

abbrev loop_path : List Text
loop_path = text "P2" ∷ text "P1" ∷ text "P3" ∷ []

smallest_rotation-names_example :
    IsRotation loop_path (smallest_rotation loop_path)
    × ((q : List Text)
        → IsRotation loop_path q
        → (compare_paths (smallest_rotation loop_path) q ≢ Ordering.gt)
          × (smallest_rotation q ≡ smallest_rotation loop_path))
smallest_rotation-names_example = smallest_rotation-names loop_path

around : Leads (text "a" ∷ text "b" ∷ text "c" ∷ []) triangle (text "a") (text "c")
around = onto {b = text "c"} (onto {b = text "b"} begin refl refl) refl refl

representative_cycle-IsLoop_example :
    IsLoop triangle (representative_cycle (text "a" ∷ text "b" ∷ text "c" ∷ []) triangle)
representative_cycle-IsLoop_example =
    representative_cycle-IsLoop (text "a") (text "b" ∷ text "c" ∷ []) triangle (text "c") around
      refl
