-- ===== src/Domain/Review.antt =====
-- packages/domain/src/review.ts: what a person has to settle. A number that the code only prints
-- (a confidence, a numeric attribute value) is carried as the text that `String` gives for it.
use matchline.Base.{ℕ, Bool, List, Text}
use matchline.Domain.Claim.{SourceKind, Provenance}
use matchline.Domain.Ladder.{LadderSourceKind}

pub data AttributeValue : Type 0 where
  string : Text → AttributeValue
  number : Text → AttributeValue
  boolean : Bool → AttributeValue
  null : AttributeValue

pub record FuzzyIdentityCandidate : Type 0 where
  pub asset_id : Text
  pub distance : ℕ

pub record AttributeClaim : Type 0 where
  pub subject_asset_id : Text
  pub attribute : Text
  pub proposed_value : AttributeValue
  pub source : SourceKind
  pub rule : Text
  pub evidence_tier : ℕ
  pub provenance : Provenance

pub data ReviewItem : Type 0 where
  system_conflict : (asset_id : Text) → (claims : List AttributeClaim) → ReviewItem
  duplicate_model_tag : (canonical_tag : Text) → (object_ids : List ℕ) → ReviewItem
  system_catalog_conflict : (system_key : Text) → (descriptions : List Text) → ReviewItem
  fuzzy_identity : (evidence_tag : Text) → List FuzzyIdentityCandidate → ReviewItem
  ambiguous_suffix : (evidence_tag : Text) → (candidate_asset_ids : List Text) → ReviewItem
  ambiguous_parent :
      (asset_id : Text) → LadderSourceKind → (candidate_parent_ids : List Text) → ReviewItem
  structural_cycle : (asset_ids : List Text) → ReviewItem
  missing_boundary : (asset_id level_id : Text) → ReviewItem
  nesting_proposal : (asset_id proposed_parent_id rule_detail confidence : Text) → ReviewItem
  dead_claim_rule : (ladder_source reason child_ref parent_ref : Text) → ReviewItem
  unresolvable_alias : (evidence_tag alias_target : Text) → ReviewItem
  absorbed_tagged_component :
      (absorbed_tag absorbing_asset_id : Text) → (object_id : ℕ) → ReviewItem
