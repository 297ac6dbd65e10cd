-- ===== src/Flow/Order.antt =====
-- packages/electrical-flow/src/order.ts. Its comparators of texts, optional values and source references are
-- those of packages/ssm-compiler/src/order.ts, declared again.
pub mod Laws
use matchline.Base.{ℕ, List, [], ◌∷◌, Ordering, then_by, compare, Text, compare_text, Comparator}
use matchline.Domain.Claim.{Provenance, relationship_name}
use matchline.Domain.Connectivity.{edge_kind_text, source_kind_text}
use matchline.Ssm.Order.{compare_source_ref, compare_optional}
use matchline.Flow.Types.{FlowEdge, FlowEdgeRef}

unfoldable pub compare_flow_provenance : Comparator Provenance
unfolding compare_source_ref compare_optional compare_text
compare_flow_provenance left right = then_by (compare_text left.source_file right.source_file) (
    then_by (compare_source_ref left.source_ref right.source_ref) (
      then_by (compare_optional compare_text left.property_or_column right.property_or_column) (
        then_by (compare_optional compare_text left.rule right.rule)
          (compare_optional compare left.fallback_rung right.fallback_rung))))

unfoldable pub compare_edges : Comparator FlowEdge
unfolding compare_flow_provenance
compare_edges left right = then_by (compare_text left.from_node_id right.from_node_id) (
    then_by (compare_text left.to_node_id right.to_node_id) (
      then_by (compare_flow_provenance left.provenance right.provenance) (
        then_by (compare_text (edge_kind_text left.kind) (edge_kind_text right.kind)) (
          then_by
            (compare_text (source_kind_text left.source_kind) (source_kind_text right.source_kind))
            (then_by
              (compare_text (relationship_name left.relationship_type)
                (relationship_name right.relationship_type))
              (compare_optional compare_text left.via right.via))))))

unfoldable pub compare_edge_refs : Comparator FlowEdgeRef
unfolding compare_text
compare_edge_refs left right =
    then_by (compare_text left.node_id right.node_id) (compare_text left.edge_id right.edge_id)

unfoldable pub compare_paths : Comparator (List Text)
unfolding compare_text
compare_paths [] [] = Ordering.eq
compare_paths [] (r ∷ right) = Ordering.lt
compare_paths (l ∷ left) [] = Ordering.gt
compare_paths (l ∷ left) (r ∷ right) = then_by (compare_text l r) (compare_paths left right)
