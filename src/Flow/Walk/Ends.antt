-- ===== src/Flow/Walk/Ends.antt =====
-- packages/electrical-flow/src/walk.ts, `walkSourceToLoad`, from the first node to the last.
use matchline.Base.{
  ◌≡◌, ◌↔◌, inl, inr, sym, some, none, true, arith, Text, text_eq, text_beq_iff, includes,
  IsDistinct, Map, get, has, has_of_get, Bool-cases, subst,
}
use matchline.Flow.Types.{FlowNode, ElectricalFlow}
use matchline.Flow.Walk.{walk_source_to_load}
use matchline.Flow.Walk.Steps.{walk_from_root-Walks}
use matchline.Flow.Walk.Cover.{
  visit_ids, IsKeyed, walk-IsDistinct, Reaches, here, fed, walk_reached, reached_in_walk,
}

root_of_Reaches :
    (nodes : Map Text FlowNode) (root b : Text) → Reaches nodes root b → has nodes root ≡ true
root_of_Reaches nodes root b (here n found) = has_of_get nodes root n found
root_of_Reaches nodes root b (fed n m before found target is_node) =
    root_of_Reaches nodes root _ before

-- In a flow whose nodes stand under their own ids, the walk from a root yields no node twice, and it
-- yields exactly the nodes that a chain of feed edges reaches from the root: the root itself, if it is a
-- node, and with each node the nodes it feeds. The walk comes to its end, also around a ring.
pub walk_source_to_load-reached :
    (flow : ElectricalFlow) (root : Text)
    → IsKeyed flow.nodes
    → IsDistinct (visit_ids (walk_source_to_load flow root))
      × ((b : Text)
          → (includes (visit_ids (walk_source_to_load flow root)) b ≡ true)
            ↔ Reaches flow.nodes root b)
unfolding walk_source_to_load
walk_source_to_load-reached flow root keyed = elim (Bool-cases (has flow.nodes root)) [
  | inl known ↦
      let w =
        walk_from_root-Walks flow.nodes
          (record { node_id = root; depth = 0; via_edge_id = none }) in
      rw known (
        walk-IsDistinct flow.nodes keyed w,
        λ b. (
          walk_reached flow.nodes keyed w root
              (λ x n i found. here_at root x n (ground (arith, i, text_beq_iff root x)) found) b,
          reached_in_walk flow.nodes keyed w root (ground (arith, text_beq_iff root root)) b,
        ),
      )
  | inr unknown ↦
      rw unknown (tt, λ b. (λ h. cc, λ r. let k = root_of_Reaches flow.nodes root b r in cc))
]
  where
    here_at :
        (r x : Text) (n : FlowNode) → r ≡ x → get flow.nodes x ≡ some n → Reaches flow.nodes r x
    here_at r x n e found = subst (λ y. Reaches flow.nodes y x) (sym e) (here n found)
