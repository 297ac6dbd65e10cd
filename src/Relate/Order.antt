-- ===== src/Relate/Order.antt =====
-- packages/relationship-claims/src/order.ts. Its `compareProvenance` has the body of the one in
-- packages/ssm-compiler/src/order.ts, which is used here. Confidences are carried as text, so their
-- order as numbers is a parameter.
use matchline.Base.{compare, Option, none, some, [], Text, compare_text, then_by, Comparator}
use matchline.Domain.Claim.{SsmRelationshipClaim, relationship_name}
use matchline.Ssm.Order.{compare_provenance}
use matchline.Relate.Mapping.{ladder_rung}
use matchline.Relate.Types.{SkippedClaimInput, reason_name, NestingProposal}

unfoldable pub compare_assembled : Comparator SsmRelationshipClaim
compare_assembled l r = then_by (compare_text l.subject_asset_id r.subject_asset_id) (
    then_by (compare (ladder_rung l.ladder_source) (ladder_rung r.ladder_source)) (
      then_by (compare_text l.target_asset_id r.target_asset_id) (
        then_by
          (compare_text (relationship_name l.relationship_type)
            (relationship_name r.relationship_type))
          (then_by (compare_provenance l.provenance r.provenance) (compare_text l.rule r.rule)))))

unfoldable pub compare_proposals : Comparator Text → Comparator NestingProposal
compare_proposals by_confidence l r = then_by (compare_text l.asset_id r.asset_id) (
    then_by (compare_text l.proposed_parent_id r.proposed_parent_id) (
      then_by (compare_text l.rule_detail r.rule_detail) (by_confidence l.confidence r.confidence)))

-- `ref ?? ''`
abbrev ref_text : Option Text → Text
ref_text none = []
ref_text (some ref) = ref

unfoldable pub compare_skipped : Comparator SkippedClaimInput
compare_skipped l r =
    then_by (compare (ladder_rung l.ladder_source) (ladder_rung r.ladder_source)) (
      then_by (compare_text (reason_name l.reason) (reason_name r.reason)) (
        then_by (compare_text l.child_ref r.child_ref)
          (compare_text (ref_text l.parent_ref) (ref_text r.parent_ref))))
