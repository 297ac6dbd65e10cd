-- ===== src/Relate/Types.antt =====
-- packages/relationship-claims/src/types.ts, and the role graph and manual overrides of
-- packages/domain/src/hierarchy-config.ts. A list that the options leave out reads as an empty one.
use matchline.Base.{List, Option, Text, text}
use matchline.Domain.Ladder.{LadderSourceKind}
use matchline.Domain.Claim.{RelationshipType, Provenance, SsmRelationshipClaim}
use matchline.Relate.Mapping.{MakeRootDirective}

pub record RoleRule : Type 0 where
  pub parent_role : Text
  pub child_role : Text

-- The parent, or `none` (`null`) to root the asset.
pub record ManualRelationshipOverride : Type 0 where
  pub child_asset_id : Text
  pub parent_asset_id : Option Text
  pub note : Option Text

pub record ClaimSubject : Type 0 where
  pub asset_id : Text
  pub canonical_tag : Text
  pub role : Option Text
  pub family_key : Option Text
  pub explicit_parent_tag : Option Text
  pub explicit_parent_provenance : Option Provenance

pub record FlowEdgeInput : Type 0 where
  pub from_asset_id : Text
  pub to_asset_id : Text
  pub relationship_type : RelationshipType
  pub provenance : Provenance

pub data Grade : Type 0 where
  claim proposal : Grade

pub record LearnedClaimInput : Type 0 where
  pub child_asset_id : Text
  pub parent_asset_id : Text
  pub rule_detail : Text
  pub confidence : Text
  pub grade : Grade

-- A row of the profile lookup, or an example from a prior hierarchy.
pub record TagPair : Type 0 where
  pub child_tag : Text
  pub parent_tag : Text

pub record ProfileSourceRef : Type 0 where
  pub source_file : Text
  pub profile_revision : Option Text

pub record AssembleOptions : Type 0 where
  pub role_graph : List RoleRule
  pub flow_edges : List FlowEdgeInput
  pub learned : List LearnedClaimInput
  pub prior_ssm : List TagPair
  pub profile_lookup : List TagPair
  pub manual_overrides : List ManualRelationshipOverride
  pub resolve_tag : Text → Option Text
  pub profile_source : Option ProfileSourceRef
  pub model_source_file : Option Text

pub data SkipReason : Type 0 where
  unknown_child_asset unknown_parent_asset : SkipReason
  unresolvable_child_tag unresolvable_parent_tag self_parent : SkipReason

abbrev pub reason_name : SkipReason → Text
reason_name unknown_child_asset = text "unknown-child-asset"
reason_name unknown_parent_asset = text "unknown-parent-asset"
reason_name unresolvable_child_tag = text "unresolvable-child-tag"
reason_name unresolvable_parent_tag = text "unresolvable-parent-tag"
reason_name self_parent = text "self-parent"

pub record SkippedClaimInput : Type 0 where
  pub ladder_source : LadderSourceKind
  pub reason : SkipReason
  pub child_ref : Text
  pub parent_ref : Option Text

-- A `nesting-proposal` review item.
pub record NestingProposal : Type 0 where
  pub asset_id : Text
  pub proposed_parent_id : Text
  pub rule_detail : Text
  pub confidence : Text

pub record AssembledClaims : Type 0 where
  pub structural : List SsmRelationshipClaim
  pub dependencies : List SsmRelationshipClaim
  pub proposals : List NestingProposal
  pub make_root : List MakeRootDirective
  pub skipped : List SkippedClaimInput
