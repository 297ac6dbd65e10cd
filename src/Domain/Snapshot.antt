-- ===== src/Domain/Snapshot.antt =====
-- packages/domain/src/snapshot.ts: one resolved hierarchy.
use matchline.Base.{ℕ, List, Option, Text, Map}
use matchline.Domain.Ladder.{LadderSourceKind}
use matchline.Domain.Claim.{RelationshipType, Provenance, SsmRelationshipClaim}
use matchline.Domain.Review.{ReviewItem}

pub record ParentDemotion : Type 0 where
  pub parent_asset_id : Text
  pub boundary_level_id : Text

pub data Status : Type 0 where
  resolved root provisional_root unresolved : Status

-- `none` stands for `null` and for an absent field alike; no field can hold both.
pub record ParentDecision : Type 0 where
  pub parent_asset_id : Option Text
  pub ladder_source : Option LadderSourceKind
  pub winning_claim : Option SsmRelationshipClaim
  pub demoted_from : Option ParentDemotion
  pub status : Status

pub record ResolvedDependency : Type 0 where
  pub parent_asset_id : Text
  pub relationship_type : RelationshipType
  pub provenance : Provenance

pub record LevelValue : Type 0 where
  pub level_id : Text
  pub value : Text

pub record ResolvedAssetNode : Type 0 where
  pub asset_id : Text
  pub parent : ParentDecision
  pub dependencies : List ResolvedDependency
  pub level_path : List LevelValue
  pub losing_claims : List SsmRelationshipClaim

pub record SnapshotStats : Type 0 where
  pub node_count : ℕ
  pub root_count : ℕ
  pub demoted_to_dependency_count : ℕ
  pub unresolved_count : ℕ
  pub cycle_count : ℕ
  pub ambiguous_count : ℕ

pub record ResolvedSnapshot : Type 0 where
  pub nodes : Map Text ResolvedAssetNode
  pub review_items : List ReviewItem
  pub stats : SnapshotStats
