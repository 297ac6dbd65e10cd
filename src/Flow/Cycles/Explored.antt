-- ===== src/Flow/Cycles/Explored.antt =====
-- packages/electrical-flow/src/cycles.ts, `stronglyConnectedComponents`: its `while` loop comes to its end.
use matchline.Base.{
  ◌≡◌, ◌⊎◌, refl, ◌∙◌, sym, inl, inr, ℕ, zero, suc, ◌+◌, ◌*◌, ◌≤◌, true, false, List, [], ◌∷◌,
  Option, none, some, arith, Text, text_eq, text_beq_iff, ◌==◌, includes, get_elem?, get, has,
  has-put, Bool-cases, Option-cases, List-cases,
}
use matchline.Flow.Weights.{weight_left, weight_left-le}
use matchline.Flow.Cycles.{
  FeedAdjacency, targets_of, TarjanFrame, Tarjan, entered, lower_parent, tarjan_step, arcs, explore,
  explore_root, explore_roots, unexplored,
}
use matchline.Flow.Cycles.Work.{
  arc_work, work_left, weight-entered, close_component-frames, lower_parent-frames, explore-ends,
}

module _ (adjacency : FeedAdjacency) where
  arcs-weight : (m : FeedAdjacency) → weight_left (arc_work adjacency) (λ _. false) m ≡ 2 * arcs m
  unfolding arcs
  arcs-weight [] = refl
  arcs-weight ((k, targets) ∷ m) = omega (arith, arcs-weight m)

  explore_root-ends :
      (t : Tarjan) (root : Text) → t.frames ≡ [] → (explore_root adjacency t root).frames ≡ []
  unfolding explore_root
  explore_root-ends t root e = elim (Bool-cases (has t.index root)) [
    | inl known ↦ rw known e
    | inr new ↦
        let work : work_left adjacency (entered root t).index (entered root t).frames
            ≤ 1 + 2 * arcs adjacency =
          rw e (
            omega (
              arith,
              weight-entered adjacency t.index root t.counter new,
              weight_left-le (arc_work adjacency) (has t.index) adjacency,
              arcs-weight adjacency,
            )) in
        rw new (explore-ends adjacency (1 + 2 * arcs adjacency) (entered root t) work)
  ]

  -- What has a number keeps it.
  abbrev Numbered : Text → Tarjan → Type 0
  Numbered x t = has t.index x ≡ true

  tarjan_step-Numbered :
      (x : Text) (o : Option Text) (frame : TarjanFrame) (frames : List TarjanFrame) (t : Tarjan)
      → Numbered x t
      → Numbered x (tarjan_step o frame frames t)
  tarjan_step-Numbered x (some target) frame frames t h = elim (Option-cases (get t.index target)) [
    | inl missing ↦ rw missing (ground (arith, has-put t.index target x t.counter))
    | inr (n, found) ↦ rw found (elim (Bool-cases (includes t.on_stack target)) [
      | inl waiting ↦ rw waiting h
      | inr closed ↦ rw closed h
    ])
  ]
  tarjan_step-Numbered x none frame frames t h =
      let u : Tarjan = lower_parent frame.node_id frames (record t { frames = frames }) in
      let (closed_frames, closed_index) = close_component-frames adjacency frame.node_id u in
      let (same_frames, same_index) =
        lower_parent-frames adjacency frame.node_id frames (record t { frames = frames }) in
      rw (closed_index ∙ same_index) h

  explore-Numbered :
      (x : Text) (fuel : ℕ) (t : Tarjan) → Numbered x t → Numbered x (explore adjacency fuel t)
  unfolding explore
  explore-Numbered x zero t h = h
  explore-Numbered x (suc fuel) t h = elim (List-cases t.frames) [
    | inl none_left ↦ rw (none_left, explore) h
    | inr (frame, frames, e) ↦
        rw (e, explore)
          (explore-Numbered x fuel _ (
            tarjan_step-Numbered x (get_elem? (targets_of adjacency frame.node_id) frame.next) frame
              frames t h))
  ]

  explore_root-Numbered :
      (t : Tarjan) (root x : Text)
      → (root ≡ x) ⊎ Numbered x t
      → Numbered x (explore_root adjacency t root)
  unfolding explore_root
  explore_root-Numbered t root x h = elim (Bool-cases (has t.index root)) [
    | inl known ↦ rw known (either known h)
    | inr new ↦ rw new (
        explore-Numbered x (1 + 2 * arcs adjacency) (entered root t)
          (ground (arith, h, has-put t.index root x t.counter, text_beq_iff root x)))
  ]
    where
      either : has t.index root ≡ true → (root ≡ x) ⊎ Numbered x t → Numbered x t
      either known (inl e) = rw (sym e) known
      either known (inr n) = n

  explore_roots-Numbered :
      (t : Tarjan) (roots : List Text) (x : Text)
      → Numbered x t
      → Numbered x (explore_roots adjacency t roots)
  unfolding explore_roots
  explore_roots-Numbered t [] x h = h
  explore_roots-Numbered t (root ∷ roots) x h =
      explore_roots-Numbered (explore_root adjacency t root) roots x
        (explore_root-Numbered t root x (inr h))

  explore_roots-done :
      (t : Tarjan) (roots : List Text)
      → t.frames ≡ []
      → ((explore_roots adjacency t roots).frames ≡ [])
        × ((x : Text)
            → includes roots x ≡ true
            → has (explore_roots adjacency t roots).index x ≡ true)
  unfolding explore_roots
  explore_roots-done t [] e = (e, λ x h. cc)
  explore_roots-done t (root ∷ roots) e =
      let (ended, numbered) =
        explore_roots-done (explore_root adjacency t root) roots (explore_root-ends t root e) in
      (
        ended,
        λ x h. elim (Bool-cases (root == x)) [
          | inl same ↦
              explore_roots-Numbered (explore_root adjacency t root) roots x
                (explore_root-Numbered t root x (inl ((text_beq_iff root x).0 same)))
          | inr other ↦ numbered x (ground (arith, h))
        ],
      )

-- The search of the strongly connected components comes to its end: with one step for each node of a root's
-- stack and two for each arc, no frame is left when the loop over the roots is done, and every node of the
-- list has its number. This needs nothing of the adjacency, whose targets may lack an entry.
pub explore_roots-ends :
    (node_ids : List Text) (adjacency : FeedAdjacency)
    → ((explore_roots adjacency unexplored node_ids).frames ≡ [])
      × ((x : Text)
          → includes node_ids x ≡ true
          → has (explore_roots adjacency unexplored node_ids).index x ≡ true)
explore_roots-ends node_ids adjacency = explore_roots-done adjacency unexplored node_ids refl
