-- ===== src/Flow/Walk/Steps.antt =====
-- packages/electrical-flow/src/walk.ts: the walk as a relation, without fuel.
use matchline.Base.{
  ◌≡◌, refl, ap, ◌∙◌, inl, inr, ◌⊎◌, ℕ, zero, suc, ◌+◌, ◌≤◌, true, false, not, ◌&&◌, ◌||◌, List, [],
  ◌∷◌, ◌++◌, map, reverse, Perm, none, some, arith, Text, text_eq, text_beq_iff, compare_text,
  includes, includes-append, includes-add, add, sort, sort-perm, length, length-append,
  length_of_perm, includes_of_perm, Map, get, Bool-cases, Option-cases,
}
use mathlib.Core.List.Perm
use mathlib.Core.List.{reverse_perm}
use matchline.Flow.Types.{FlowEdgeRef, FlowNode, FlowVisit}
use matchline.Flow.Weights.{weight_left, weight_left-seen, weight_left-le}
use matchline.Flow.Walk.{WalkFrame, children_from, pushed_children, visit_of, walk_from, arcs_in}

abbrev pub frame_ids : List WalkFrame → List Text
frame_ids frames = map (λ (f : WalkFrame). f.node_id) frames

abbrev pub target_ids : List FlowEdgeRef → List Text
target_ids refs = map (λ (r : FlowEdgeRef). r.node_id) refs

old_same :
    (seen visited : List Text) (x y : Text)
    → x ≡ y
    → (includes seen x || includes visited x) ≡ (includes seen y || includes visited y)
old_same seen visited x y e = ap (λ z. includes seen z || includes visited z) e

-- The children are the targets that are new.
includes-children_from :
    (depth : ℕ) (visited seen : List Text) (refs : List FlowEdgeRef) (b : Text)
    → includes (frame_ids (children_from depth visited seen refs)) b
      ≡ (includes (target_ids refs) b && not (includes seen b || includes visited b))
unfolding children_from
includes-children_from depth visited seen [] b = refl
includes-children_from depth visited seen (ref ∷ refs) b =
    elim (Bool-cases (includes seen ref.node_id || includes visited ref.node_id)) [
      | inl old ↦ rw old (
          ground (
            arith,
            includes-children_from depth visited seen refs b,
            text_beq_iff ref.node_id b,
            old_same seen visited ref.node_id b,
          ))
      | inr new ↦ rw new (
          ground (
            arith,
            includes-children_from depth visited (add seen ref.node_id) refs b,
            includes-add seen ref.node_id b,
            text_beq_iff ref.node_id b,
            old_same seen visited ref.node_id b,
          ))
    ]

length-children_from_le :
    (depth : ℕ) (visited seen : List Text) (refs : List FlowEdgeRef)
    → length (children_from depth visited seen refs) ≤ length refs
unfolding children_from
length-children_from_le depth visited seen [] = omega arith
length-children_from_le depth visited seen (ref ∷ refs) = ground (
  arith,
  length-children_from_le depth visited seen refs,
  length-children_from_le depth visited (add seen ref.node_id) refs,
)

abbrev frames_perm :
    (children : List WalkFrame)
    → Perm
        (reverse
          (sort (λ (left right : WalkFrame). compare_text right.node_id left.node_id) children))
        children
frames_perm children = Perm.trans (reverse_perm _) (sort-perm _ children)

map-append_ids : (xs ys : List WalkFrame) → frame_ids (xs ++ ys) ≡ frame_ids xs ++ frame_ids ys
map-append_ids [] ys = refl
map-append_ids (x ∷ xs) ys = ap (◌∷◌ x.node_id) (map-append_ids xs ys)

pub includes-pushed :
    (depth : ℕ) (visited : List Text) (refs : List FlowEdgeRef) (stack : List WalkFrame) (b : Text)
    → includes (frame_ids (pushed_children (children_from depth visited [] refs) stack)) b
      ≡ ((includes (target_ids refs) b && not (includes visited b)) || includes (frame_ids stack) b)
includes-pushed depth visited refs stack b =
    let children = children_from depth visited [] refs in
    ap (λ l. includes l b) (map-append_ids (reverse (sort _ children)) stack)
    ∙ includes-append (frame_ids (reverse (sort _ children))) (frame_ids stack) b
    ∙ ap (λ t. t || includes (frame_ids stack) b)
        (includes_of_perm (λ (f : WalkFrame). f.node_id) b (frames_perm children)
          ∙ includes-children_from depth visited [] refs b)

pub length-pushed_le :
    (depth : ℕ) (visited : List Text) (refs : List FlowEdgeRef) (stack : List WalkFrame)
    → length (pushed_children (children_from depth visited [] refs) stack)
      ≤ length refs + length stack
length-pushed_le depth visited refs stack =
    let children = children_from depth visited [] refs in
    omega (
      arith,
      length-append (reverse (sort _ children)) stack,
      length_of_perm (frames_perm children),
      length-children_from_le depth visited [] refs,
    )

module _ (nodes : Map Text FlowNode) where
  -- `Walks visited stack visits`: the loop, entered with `visited` and `stack`, yields `visits`.
  pub data Walks : List Text → List WalkFrame → List FlowVisit → Type 0 where
    done : {visited : List Text} → Walks visited [] []
    skips :
        {visited : List Text} {frame : WalkFrame} {stack : List WalkFrame} {visits : List FlowVisit}
        → (includes visited frame.node_id ≡ true) ⊎ (get nodes frame.node_id ≡ none)
        → Walks visited stack visits
        → Walks visited (frame ∷ stack) visits
    enters :
        {visited : List Text} {frame : WalkFrame} {stack : List WalkFrame} {visits : List FlowVisit}
        (node : FlowNode)
        → includes visited frame.node_id ≡ false
        → get nodes frame.node_id ≡ some node
        → Walks
            (add visited frame.node_id)
            (pushed_children
              (children_from frame.depth (add visited frame.node_id) [] node.feeds)
              stack)
            visits
        → Walks visited (frame ∷ stack) (visit_of node frame ∷ visits)

  abbrev feed_count : FlowNode → ℕ
  feed_count node = length node.feeds

  -- What is left to do: the frames, and those that the nodes to come can push.
  abbrev to_do : List Text → List WalkFrame → ℕ
  to_do visited stack = length stack + weight_left feed_count (includes visited) nodes

  to_do-entered :
      (visited : List Text) (frame : WalkFrame) (stack : List WalkFrame) (node : FlowNode)
      → includes visited frame.node_id ≡ false
      → get nodes frame.node_id ≡ some node
      → to_do (add visited frame.node_id) (
          pushed_children
            (children_from frame.depth (add visited frame.node_id) [] node.feeds)
            stack)
        ≤ to_do visited stack
  to_do-entered visited frame stack node new found = omega (
    arith,
    length-pushed_le frame.depth (add visited frame.node_id) node.feeds stack,
    weight_left-seen feed_count (includes visited) (includes (add visited frame.node_id))
        frame.node_id node nodes (λ x. includes-add visited frame.node_id x) new found,
  )

  -- Enough fuel walks to the end.
  walk_from-Walks :
      (fuel : ℕ) (visited : List Text) (stack : List WalkFrame)
      → suc (to_do visited stack) ≤ fuel
      → Walks visited stack (walk_from nodes fuel visited stack)
  unfolding walk_from
  walk_from-Walks zero visited stack le = absurd (omega arith)
  walk_from-Walks (suc fuel) visited [] le = done
  walk_from-Walks (suc fuel) visited (frame ∷ stack) le =
      let skipped = walk_from-Walks fuel visited stack (omega arith) in
      elim (Bool-cases (includes visited frame.node_id)) [
        | inl old ↦ rw (old, walk_from) (skips (inl old) skipped)
        | inr new ↦ elim (Option-cases (get nodes frame.node_id)) [
          | inl missing ↦ rw (new, missing, walk_from) (skips (inr missing) skipped)
          | inr (node, found) ↦
              rw (new, found, walk_from)
                (enters node new found (
                  walk_from-Walks fuel _ _
                    (omega (arith, to_do-entered visited frame stack node new found))))
        ]
      ]

  arcs_in-weight : (m : Map Text FlowNode) → arcs_in m ≡ weight_left feed_count (λ _. false) m
  unfolding arcs_in
  arcs_in-weight [] = refl
  arcs_in-weight ((k, node) ∷ m) = omega (arith, arcs_in-weight m)

  -- The fuel of the walk is enough.
  pub walk_from_root-Walks :
      (frame : WalkFrame)
      → Walks [] (frame ∷ []) (walk_from nodes (suc (suc (arcs_in nodes))) [] (frame ∷ []))
  walk_from_root-Walks frame =
      walk_from-Walks (suc (suc (arcs_in nodes))) [] (frame ∷ [])
        (omega (arith, arcs_in-weight nodes, weight_left-le feed_count (includes []) nodes))
