-- ===== src/Flow/Edges.antt =====
-- packages/electrical-flow/src/build.ts, `buildEdges`.
pub mod Kept
use matchline.Base.{
  ℕ, ◌+◌, Bool, List, [], ◌∷◌, ◌++◌, map, Option, none, some, if◌then◌else◌, ◌==◌, Ordering,
  then_by, Text, text, text_eq, compare_text, decimal, digits, sort, Comparator, Map, get,
}
use matchline.Domain.Connectivity.{ConnectivityObservation}
use matchline.Identity.Normalize.{padded, fill_of}
use matchline.Flow.Types.{FlowEdge, SelfLoopAnomaly}
use matchline.Flow.Order.{compare_edges}

-- `drafts` and `selfLoops`. A draft is an edge whose id is still empty.
pub record EdgePass : Type 0 where
  pub edges : List FlowEdge
  pub self_loops : List SelfLoopAnomaly

abbrev pub edge_between : ConnectivityObservation → Text → Text → FlowEdge
edge_between o from_node_id to_node_id = record {
  edge_id = [];
  from_node_id = from_node_id;
  to_node_id = to_node_id;
  kind = o.kind;
  relationship_type = o.relationship_type;
  via = o.via;
  source_kind = o.source_kind;
  provenance = o.provenance;
}

abbrev pub loop_at : ConnectivityObservation → Text → SelfLoopAnomaly
loop_at o node_id = record {
  node_id = node_id;
  from_tag = o.from_tag;
  to_tag = o.to_tag;
  edge_kind = o.kind;
  source_kind = o.source_kind;
  provenance = o.provenance;
}

-- The body of the loop, for the nodes of the two tags.
abbrev pub connect : ConnectivityObservation → Option Text → Option Text → EdgePass → EdgePass
connect o none to p = p
connect o (some from_node_id) none p = p
connect o (some from_node_id) (some to_node_id) p =
    if from_node_id == to_node_id
    then record p { self_loops = p.self_loops ++ loop_at o from_node_id ∷ [] }
    else record p { edges = p.edges ++ edge_between o from_node_id to_node_id ∷ [] }

unfoldable pub connect_all : Map Text Text → List ConnectivityObservation → EdgePass → EdgePass
connect_all node_id_by_tag [] p = p
connect_all node_id_by_tag (o ∷ observations) p =
    connect_all node_id_by_tag observations
      (connect o (get node_id_by_tag o.from_tag) (get node_id_by_tag o.to_tag) p)

-- `edge-${String(position + 1).padStart(4, '0')}`
abbrev pub edge_id_at : ℕ → Text
edge_id_at position = text "edge-" ++ padded 4 (text "0") (decimal (position + 1))

unfoldable pub numbered_edges : ℕ → List FlowEdge → List FlowEdge
unfolding digits fill_of
numbered_edges position [] = []
numbered_edges position (edge ∷ edges) =
    record edge { edge_id = edge_id_at position } ∷ numbered_edges (position + 1) edges

abbrev pub compare_self_loops : Comparator SelfLoopAnomaly
compare_self_loops left right =
    then_by (compare_text left.node_id right.node_id)
      (then_by (compare_text left.from_tag right.from_tag) (compare_text left.to_tag right.to_tag))

unfoldable pub build_edges : List ConnectivityObservation → Map Text Text → EdgePass
unfolding connect_all numbered_edges compare_edges compare_text
build_edges observations node_id_by_tag =
    let p = connect_all node_id_by_tag observations (record { edges = []; self_loops = [] }) in
    record {
      edges = numbered_edges 0 (sort compare_edges p.edges);
      self_loops = sort compare_self_loops p.self_loops;
    }
