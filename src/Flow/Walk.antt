-- ===== src/Flow/Walk.antt =====
-- packages/electrical-flow/src/walk.ts: the walk from source to load. What the generator yields is a list.
pub mod Steps
pub mod Cover
pub mod Ends
use matchline.Base.{
  ℕ, zero, suc, ◌+◌, Bool, ◌||◌, List, [], ◌∷◌, ◌++◌, Option, none, some, if◌then◌else◌, Text,
  text_eq, compare_text, includes, add, sort, reverse, length, Map, get, has,
}
use matchline.Flow.Types.{FlowEdgeRef, FlowNode, ElectricalFlow, FlowVisit}

pub record WalkFrame : Type 0 where
  pub node_id : Text
  pub depth : ℕ
  pub via_edge_id : Option Text

-- The loop over `node.feeds`: one child for each node that is new.
unfoldable pub children_from : ℕ → List Text → List Text → List FlowEdgeRef → List WalkFrame
children_from depth visited seen [] = []
children_from depth visited seen (ref ∷ refs) =
    if includes seen ref.node_id || includes visited ref.node_id
    then children_from depth visited seen refs
    else record { node_id = ref.node_id; depth = depth + 1; via_edge_id = some ref.edge_id }
      ∷ children_from depth visited (add seen ref.node_id) refs

-- `children.sort(…)` in descending order of ids, and the stack from its top, so that the last child that
-- is pushed comes first.
abbrev pub pushed_children : List WalkFrame → List WalkFrame → List WalkFrame
pushed_children children stack =
    reverse (sort (λ left right. compare_text right.node_id left.node_id) children) ++ stack

abbrev pub visit_of : FlowNode → WalkFrame → FlowVisit
visit_of node frame = record {
  node = node;
  depth = frame.depth;
  via_edge_id = frame.via_edge_id;
  pmd_relations = node.pmd_relations;
}

-- The number of feed edges.
unfoldable pub arcs_in : Map Text FlowNode → ℕ
arcs_in [] = 0
arcs_in ((id, node) ∷ rest) = length node.feeds + arcs_in rest

module _ (nodes : Map Text FlowNode) where
  -- The `while` loop, on fuel; `visited` is in the order of the visits.
  unfoldable pub walk_from : ℕ → List Text → List WalkFrame → List FlowVisit
  unfolding children_from compare_text
  walk_from zero visited stack = []
  walk_from (suc fuel) visited [] = []
  walk_from (suc fuel) visited (frame ∷ stack) =
      elim (if includes visited frame.node_id then none else get nodes frame.node_id) [
        | none ↦ walk_from fuel visited stack
        | some node ↦
            visit_of node frame
            ∷ walk_from fuel (add visited frame.node_id) (
                pushed_children
                  (children_from frame.depth (add visited frame.node_id) [] node.feeds) stack)
      ]

unfoldable pub walk_source_to_load : ElectricalFlow → Text → List FlowVisit
unfolding walk_from arcs_in
walk_source_to_load flow root_node_id =
    if has flow.nodes root_node_id
    then walk_from flow.nodes (suc (suc (arcs_in flow.nodes))) []
        (record { node_id = root_node_id; depth = 0; via_edge_id = none } ∷ [])
    else []
