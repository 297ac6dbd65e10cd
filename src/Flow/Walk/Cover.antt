-- ===== src/Flow/Walk/Cover.antt =====
-- packages/electrical-flow/src/walk.ts: what a walk yields.
use matchline.Base.{
  ◌≡◌, ap, ◌∙◌, sym, inl, inr, true, false, ◌||◌, List, [], map, some, arith, Text, text_eq,
  text_beq_iff, ◌==◌, includes, includes-add, add, IsDistinct, Map, get, some_injective, subst,
  Bool-cases,
}
use matchline.Flow.Types.{FlowNode, FlowVisit}
use matchline.Flow.Walk.{WalkFrame}
use matchline.Flow.Walk.Steps.{frame_ids, target_ids, includes-pushed, Walks, done, skips, enters}

abbrev pub visit_ids : List FlowVisit → List Text
visit_ids visits = map (λ (v : FlowVisit). v.node.node_id) visits

-- Every node stands under its own id.
abbrev pub IsKeyed : Map Text FlowNode → Type 0
IsKeyed nodes = (k : Text) (n : FlowNode) → get nodes k ≡ some n → n.node_id ≡ k

module _ (nodes : Map Text FlowNode) where
  -- The nodes that a chain of feeds leads to from the root.
  pub data Reaches (root : Text) : Text → Type 0 where
    here : (n : FlowNode) → get nodes root ≡ some n → Reaches root root
    fed :
        {a b : Text} (n m : FlowNode)
        → Reaches root a
        → get nodes a ≡ some n
        → includes (target_ids n.feeds) b ≡ true
        → get nodes b ≡ some m
        → Reaches root b

module _ (nodes : Map Text FlowNode) (keyed : IsKeyed nodes) where
  -- Nothing is yielded that was visited before.
  walk_new :
      {visited : List Text} {stack : List WalkFrame} {visits : List FlowVisit}
      → Walks nodes visited stack visits
      → (b : Text) → includes (visit_ids visits) b ≡ true
      → includes visited b ≡ false
  walk_new done b h = cc
  walk_new (skips _ w) b h = walk_new w b h
  walk_new (enters {visited} {frame} node new found w) b h = ground (
    arith,
    walk_new w b,
    includes-add visited frame.node_id b,
    text_beq_iff node.node_id b,
    ap (includes visited) (keyed frame.node_id node found),
    ap (includes visited),
  )

  pub walk-IsDistinct :
      {visited : List Text} {stack : List WalkFrame} {visits : List FlowVisit}
      → Walks nodes visited stack visits
      → IsDistinct (visit_ids visits)
  walk-IsDistinct done = tt
  walk-IsDistinct (skips _ w) = walk-IsDistinct w
  walk-IsDistinct (enters {visited} {frame} node new found w) = (
    ground (
      arith,
      walk_new w node.node_id,
      includes-add visited frame.node_id node.node_id,
      text_beq_iff frame.node_id node.node_id,
      keyed frame.node_id node found,
    ),
    walk-IsDistinct w,
  )

  -- Every node that waits on the stack was visited or is yielded.
  pub walk_waiting :
      {visited : List Text} {stack : List WalkFrame} {visits : List FlowVisit}
      → Walks nodes visited stack visits
      → (b : Text) (n : FlowNode) → includes (frame_ids stack) b ≡ true
      → get nodes b ≡ some n
      → (includes visited b || includes (visit_ids visits) b) ≡ true
  walk_waiting done b n h is_node = cc
  walk_waiting (skips {visited} {frame} {stack} {visits} (inl old) w) b n h is_node =
      ground (arith, walk_waiting w b n, text_beq_iff frame.node_id b, ap (includes visited))
  walk_waiting (skips {visited} {frame} {stack} {visits} (inr missing) w) b n h is_node =
      ground (arith, walk_waiting w b n, text_beq_iff frame.node_id b, ap (get nodes))
  walk_waiting (enters {visited} {frame} {stack} {visits} node new found w) b n h is_node = ground (
    arith,
    walk_waiting w b n,
    text_beq_iff frame.node_id b,
    keyed frame.node_id node found,
    text_beq_iff node.node_id b,
    includes-add visited frame.node_id b,
    includes-pushed frame.depth (add visited frame.node_id) node.feeds stack b,
  )

  -- Every node that a yielded node feeds was visited or is yielded.
  pub walk_fed :
      {visited : List Text} {stack : List WalkFrame} {visits : List FlowVisit}
      → Walks nodes visited stack visits
      → (a b : Text) (n m : FlowNode) → includes (visit_ids visits) a ≡ true
      → get nodes a ≡ some n
      → includes (target_ids n.feeds) b ≡ true
      → get nodes b ≡ some m
      → (includes visited b || includes (visit_ids visits) b) ≡ true
  walk_fed done a b n m h found target is_node = cc
  walk_fed (skips _ w) a b n m h found target is_node = walk_fed w a b n m h found target is_node
  walk_fed (enters {visited} {frame} {stack} {visits} node new at_frame w) a b n m h found target
        is_node =
      let same : node.node_id ≡ frame.node_id = keyed frame.node_id node at_frame in
      let of_frame : frame.node_id ≡ a → node ≡ n =
        λ e. some_injective (sym at_frame ∙ ap (get nodes) e ∙ found) in
      ground (
        arith,
        of_frame,
        λ (e : node ≡ n). ap (λ (x : FlowNode). includes (target_ids x.feeds) b) e,
        walk_fed w a b n m,
        walk_waiting w b m,
        text_beq_iff node.node_id a,
        text_beq_iff node.node_id b,
        text_beq_iff frame.node_id b,
        includes-add visited frame.node_id b,
        includes-pushed frame.depth (add visited frame.node_id) node.feeds stack b,
      )

  -- What is yielded is reached, if what waits on the stack is.
  pub walk_reached :
      {visited : List Text} {stack : List WalkFrame} {visits : List FlowVisit}
      → Walks nodes visited stack visits
      → (root : Text)
      → ((x : Text) (n : FlowNode)
          → includes (frame_ids stack) x ≡ true
          → get nodes x ≡ some n
          → Reaches nodes root x)
      → (b : Text) → includes (visit_ids visits) b ≡ true
      → Reaches nodes root b
  walk_reached done root ok b h = cc
  walk_reached (skips {visited} {frame} _ w) root ok b h =
      walk_reached w root (λ x n i found. ok x n (ground (arith, i)) found) b h
  walk_reached (enters {visited} {frame} {stack} {visits} node new found w) root ok b h =
      let reached : Reaches nodes root frame.node_id =
        ok frame.node_id node (ground (arith, text_beq_iff frame.node_id frame.node_id)) found in
      elim (Bool-cases (node.node_id == b)) [
        | inl e ↦
            subst (Reaches nodes root)
              (sym (keyed frame.node_id node found) ∙ (text_beq_iff node.node_id b).0 e) reached
        | inr e ↦
            walk_reached w root
              (λ x n i is_node. elim (Bool-cases (includes (target_ids node.feeds) x)) [
                | inl target ↦ fed node n reached found target is_node
                | inr other ↦
                    ok x n
                      (ground (
                        arith,
                        i,
                        includes-pushed frame.depth (add visited frame.node_id) node.feeds stack x,
                      ))
                      is_node
              ])
              b (ground (arith, h))
      ]

  -- Once nothing was visited before, all that is reached is yielded.
  pub reached_in_walk :
      {stack : List WalkFrame} {visits : List FlowVisit}
      → Walks nodes [] stack visits
      → (root : Text) → includes (frame_ids stack) root ≡ true
      → (b : Text) → Reaches nodes root b
      → includes (visit_ids visits) b ≡ true
  reached_in_walk w root on_stack b (here n found) = walk_waiting w root n on_stack found
  reached_in_walk w root on_stack b (fed {a} n m before found target is_node) =
      walk_fed w a b n m (reached_in_walk w root on_stack a before) found target is_node
