-- ===== src/Flow/Loops.antt =====
-- packages/electrical-flow/src/cycles.ts: the name of a loop, and the shortest loop of a component.
pub mod Rotation
pub mod Paths
pub mod Scan
pub mod Found
use matchline.Base.{
  ℕ, zero, suc, ◌+◌, ◌-◌, Bool, true, false, not, ◌&&◌, ◌||◌, List, [], ◌∷◌, ◌++◌, Option, none,
  some, if◌then◌else◌, ◌==◌, leb, Text, text_eq, includes, reverse, length, take, drop, Map, get,
  has, put,
}
use matchline.Flow.Nodes.{is_lt}
use matchline.Flow.Order.{compare_paths}
use matchline.Flow.Cycles.{FeedAdjacency, targets_of}

-- `[...path.slice(offset), ...path.slice(0, offset)]`
abbrev pub rotated : List Text → ℕ → List Text
rotated path offset = drop offset path ++ take offset path

abbrev pub better : List Text → List Text → List Text
better best path = if is_lt (compare_paths path best) then path else best

-- The loop over the offsets, of which `n` are left.
unfoldable pub smallest_from : List Text → ℕ → ℕ → List Text → List Text
unfolding compare_paths
smallest_from path zero offset best = best
smallest_from path (suc n) offset best =
    smallest_from path n (suc offset) (better best (rotated path offset))

unfoldable pub smallest_rotation : List Text → List Text
unfolding smallest_from
smallest_rotation path =
    if leb (length path) 1 then path else smallest_from path (length path - 1) 1 path

-- `parents`, and the queue from `head` on.
pub record LoopSearch : Type 0 where
  pub parents : Map Text Text
  pub queue : List Text

-- What the loop over the successors of a node comes to.
pub data LoopScan : Type 0 where
  closes : LoopSearch → LoopScan
  goes_on : LoopSearch → LoopScan

abbrev pub scanned : List Text → Text → Text → LoopSearch → LoopSearch
scanned members current target s =
    if includes members target && not (has s.parents target)
    then record { parents = put s.parents target current; queue = s.queue ++ target ∷ [] }
    else s

unfoldable pub scan_targets : List Text → Text → Text → List Text → LoopSearch → LoopScan
scan_targets members start current [] s = goes_on s
scan_targets members start current (target ∷ targets) s =
    elim (includes members target && (target == start)) [
      | true ↦ closes s
      | false ↦ scan_targets members start current targets (scanned members current target s)
    ]

-- The loop that climbs `parents`, on fuel, before the path is reversed.
unfoldable pub path_up : ℕ → Map Text Text → Option Text → List Text
path_up zero parents step = []
path_up (suc fuel) parents none = []
path_up (suc fuel) parents (some step) = step ∷ path_up fuel parents (get parents step)

module _ (component : List Text) (adjacency : FeedAdjacency) (start : Text) where
  -- The `while` loop, on fuel: a node of the component is queued once.
  unfoldable pub search_loop : ℕ → LoopSearch → List Text
  unfolding smallest_rotation scan_targets path_up
  search_loop zero s = smallest_rotation component
  search_loop (suc fuel) s = elim s.queue [
    | [] ↦ smallest_rotation component
    | current ∷ queue ↦
        elim (scan_targets component start current (targets_of adjacency current)
          (record s { queue = queue })) [
            | closes t ↦
                smallest_rotation
                  (reverse (path_up (suc (length t.parents)) t.parents (some current)))
            | goes_on t ↦ search_loop fuel t
          ]
  ]

unfoldable pub representative_cycle : List Text → FeedAdjacency → List Text
unfolding search_loop
representative_cycle [] adjacency = []
representative_cycle (start ∷ component) adjacency =
    search_loop (start ∷ component) adjacency start (suc (length (start ∷ component)))
      (record { parents = []; queue = start ∷ [] })
