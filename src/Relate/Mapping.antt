-- ===== src/Relate/Mapping.antt =====
-- packages/relationship-claims/src/mapping.ts, and the directive of types.ts.
use matchline.Base.{ℕ, suc, List, [], ◌∷◌, Option, if◌then◌else◌, ◌==◌, Text, text}
use matchline.Domain.Ladder.{
  LadderSourceKind, manual, explicit_model, profile_lookup, flow_family, family_role,
  learned_description, prior_ssm, model_tree, ladder_source_order, source_eq,
}
use matchline.Domain.Claim.{
  RelationshipType, explicit_parent, family_related, structural_parent_candidate, Provenance,
  SourceKind, inferred, tracking_document, engineered_document, model_tier,
}

-- LADDER_SOURCE_EVIDENCE_TIER
abbrev pub evidence_tier_of : LadderSourceKind → ℕ
evidence_tier_of manual = model_tier
evidence_tier_of explicit_model = model_tier
evidence_tier_of profile_lookup = tracking_document
evidence_tier_of flow_family = engineered_document
evidence_tier_of family_role = inferred
evidence_tier_of learned_description = inferred
evidence_tier_of prior_ssm = tracking_document
evidence_tier_of model_tree = inferred

-- LADDER_SOURCE_KIND
abbrev pub kind_of : LadderSourceKind → SourceKind
kind_of manual = SourceKind.manual
kind_of explicit_model = SourceKind.model
kind_of profile_lookup = SourceKind.manual
kind_of flow_family = SourceKind.flow
kind_of family_role = SourceKind.model
kind_of learned_description = SourceKind.mel
kind_of prior_ssm = SourceKind.mel
kind_of model_tree = SourceKind.model

-- LADDER_SOURCE_RELATIONSHIP_TYPE
abbrev pub relationship_type_of : LadderSourceKind → RelationshipType
relationship_type_of manual = explicit_parent
relationship_type_of explicit_model = explicit_parent
relationship_type_of profile_lookup = explicit_parent
relationship_type_of flow_family = family_related
relationship_type_of family_role = family_related
relationship_type_of learned_description = structural_parent_candidate
relationship_type_of prior_ssm = structural_parent_candidate
relationship_type_of model_tree = structural_parent_candidate

-- LADDER_SOURCE_RULE
abbrev pub rule_of : LadderSourceKind → Text
rule_of manual = text "relate.manualOverride"
rule_of explicit_model = text "relate.explicitModelParent"
rule_of profile_lookup = text "relate.profileLookup"
rule_of flow_family = text "relate.flowAnchoredFamily"
rule_of family_role = text "relate.familyRole"
rule_of learned_description = text "relate.learnedDescription"
rule_of prior_ssm = text "relate.priorSsmExample"
rule_of model_tree = text "relate.modelTree"

-- `order.indexOf(source)` where the source is a member.
place_in : List LadderSourceKind → LadderSourceKind → ℕ
place_in [] source = 0
place_in (k ∷ ks) source = if k == source then 0 else suc (place_in ks source)

-- Position of a rung in the default ladder, counted from 1.
unfoldable pub ladder_rung : LadderSourceKind → ℕ
unfolding place_in
ladder_rung source = suc (place_in ladder_source_order source)

pub record MakeRootDirective : Type 0 where
  pub child_asset_id : Text
  pub provenance : Provenance
  pub note : Option Text
