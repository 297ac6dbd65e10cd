-- ===== src/Flow/Cycles.antt =====
-- packages/electrical-flow/src/cycles.ts: the loops of the feeds. The loops run on fuel; a stack is a list
-- from its top, and a queue is a list from its head.
pub mod Work
pub mod Explored
pub mod Apart
use matchline.Base.{
  ℕ, zero, suc, ◌+◌, ◌*◌, ◌-◌, Bool, true, false, not, ◌&&◌, List, [], ◌∷◌, ◌++◌, Option, none,
  some, if◌then◌else◌, ◌==◌, nat_beq, leb, Text, text_eq, compare_text, includes, add, keep_if,
  sort, reverse, length, get_elem?, take, drop, Map, get, has, put,
}
use matchline.Flow.Types.{FlowEdge}
use matchline.Flow.Nodes.{is_lt}
use matchline.Flow.Order.{compare_paths}

abbrev pub FeedAdjacency : Type 0
FeedAdjacency = Map Text (List Text)

unfoldable pub no_successors : FeedAdjacency → List Text → FeedAdjacency
no_successors successors [] = successors
no_successors successors (node_id ∷ node_ids) = no_successors (put successors node_id []) node_ids

-- `successors.get(edge.fromNodeId)?.add(edge.toNodeId)`
abbrev pub with_arc : FeedAdjacency → FlowEdge → Option (List Text) → FeedAdjacency
with_arc successors edge none = successors
with_arc successors edge (some targets) =
    put successors edge.from_node_id (add targets edge.to_node_id)

unfoldable pub with_arcs : FeedAdjacency → List FlowEdge → FeedAdjacency
with_arcs successors [] = successors
with_arcs successors (edge ∷ edges) =
    with_arcs (with_arc successors edge (get successors edge.from_node_id)) edges

unfoldable pub sorted_targets : FeedAdjacency → FeedAdjacency → FeedAdjacency
unfolding compare_text
sorted_targets adjacency [] = adjacency
sorted_targets adjacency ((node_id, targets) ∷ successors) =
    sorted_targets (put adjacency node_id (sort compare_text targets)) successors

unfoldable pub build_feed_adjacency : List Text → List FlowEdge → FeedAdjacency
unfolding no_successors with_arcs sorted_targets
build_feed_adjacency node_ids feed_edges =
    sorted_targets [] (with_arcs (no_successors [] node_ids) feed_edges)

-- `adjacency.get(nodeId) ?? []`
abbrev pub targets_of : FeedAdjacency → Text → List Text
targets_of adjacency node_id = elim (get adjacency node_id) [ none ↦ [] | some targets ↦ targets ]

pub record TarjanFrame : Type 0 where
  pub node_id : Text
  pub next : ℕ

-- The variables of `stronglyConnectedComponents`.
pub record Tarjan : Type 0 where
  pub index : Map Text ℕ
  pub low_link : Map Text ℕ
  pub on_stack : List Text
  pub stack : List Text
  pub components : List (List Text)
  pub counter : ℕ
  pub frames : List TarjanFrame

-- A node gets its number, and stands on both stacks.
abbrev pub entered : Text → Tarjan → Tarjan
entered node_id t = record {
  index = put t.index node_id t.counter;
  low_link = put t.low_link node_id t.counter;
  on_stack = add t.on_stack node_id;
  stack = node_id ∷ t.stack;
  components = t.components;
  counter = t.counter + 1;
  frames = record { node_id = node_id; next = 0 } ∷ t.frames;
}

abbrev pub smaller_of : ℕ → ℕ → ℕ
smaller_of m n = if leb m n then m else n

-- `lowLink.get(nodeId) ?? n`
abbrev pub link_or : ℕ → Option ℕ → ℕ
link_or n none = n
link_or n (some m) = m

abbrev pub lower : Text → ℕ → ℕ → Tarjan → Tarjan
lower node_id default n t = record t {
  low_link = put t.low_link node_id (smaller_of (link_or default (get t.low_link node_id)) n);
}

-- The branches on `targetIndex`.
abbrev pub follow : Text → Text → Option ℕ → Tarjan → Tarjan
follow node_id target none t = entered target t
follow node_id target (some target_index) t =
    if includes t.on_stack target then lower node_id target_index target_index t else t

abbrev pub lower_parent : Text → List TarjanFrame → Tarjan → Tarjan
lower_parent node_id [] t = t
lower_parent node_id (parent ∷ frames) t =
    lower parent.node_id 0 (link_or 0 (get t.low_link node_id)) t

-- `lowLink.get(nodeId) === index.get(nodeId)`
abbrev pub same_number : Option ℕ → Option ℕ → Bool
same_number none none = true
same_number none (some n) = false
same_number (some m) none = false
same_number (some m) (some n) = nat_beq m n

-- What the inner loop pops, in its order, and what it leaves.
unfoldable pub popped_to : Text → List Text → List Text × List Text
popped_to node_id [] = ([], [])
popped_to node_id (popped ∷ stack) =
    if popped == node_id
    then (popped ∷ [], stack)
    else (popped ∷ (popped_to node_id stack).0, (popped_to node_id stack).1)

-- `if (component.length > 1) { components.push(component.sort(compareText)) }`
abbrev pub with_component : List Text → List (List Text) → List (List Text)
with_component component components =
    if leb 2 (length component) then components ++ sort compare_text component ∷ [] else components

unfoldable pub close_component : Text → Tarjan → Tarjan
unfolding popped_to compare_text
close_component node_id t =
    if same_number (get t.low_link node_id) (get t.index node_id)
    then record t {
      on_stack = keep_if (λ x. not (includes (popped_to node_id t.stack).0 x)) t.on_stack;
      stack = (popped_to node_id t.stack).1;
      components = with_component (popped_to node_id t.stack).0 t.components;
    }
    else t

-- The body of the `while` loop, for the frame on top and the rest.
abbrev pub tarjan_step : Option Text → TarjanFrame → List TarjanFrame → Tarjan → Tarjan
tarjan_step (some target) frame frames t =
    follow frame.node_id target (get t.index target)
      (record t { frames = record frame { next = frame.next + 1 } ∷ frames })
tarjan_step none frame frames t =
    close_component frame.node_id (lower_parent frame.node_id frames (record t { frames = frames }))

-- The number of arcs.
unfoldable pub arcs : FeedAdjacency → ℕ
arcs [] = 0
arcs ((node_id, targets) ∷ adjacency) = length targets + arcs adjacency

module _ (adjacency : FeedAdjacency) where
  unfoldable pub explore : ℕ → Tarjan → Tarjan
  unfolding close_component
  explore zero t = t
  explore (suc fuel) t = elim t.frames [
    | [] ↦ t
    | frame ∷ frames ↦
        explore fuel
          (tarjan_step (get_elem? (targets_of adjacency frame.node_id) frame.next) frame frames t)
  ]

  -- The body of the loop over `nodeIds`.
  unfoldable pub explore_root : Tarjan → Text → Tarjan
  unfolding explore arcs
  explore_root t root =
      if has t.index root then t else explore (1 + 2 * arcs adjacency) (entered root t)

  unfoldable pub explore_roots : Tarjan → List Text → Tarjan
  unfolding explore_root
  explore_roots t [] = t
  explore_roots t (root ∷ roots) = explore_roots (explore_root t root) roots

abbrev pub unexplored : Tarjan
unexplored = record {
  index = [];
  low_link = [];
  on_stack = [];
  stack = [];
  components = [];
  counter = 0;
  frames = [];
}

unfoldable pub strongly_connected_components : List Text → FeedAdjacency → List (List Text)
unfolding explore_roots compare_paths
strongly_connected_components node_ids adjacency =
    sort compare_paths (explore_roots adjacency unexplored node_ids).components
