-- ===== src/Domain/Claim.antt =====
-- packages/domain/src/relationship.ts, provenance.ts, evidence.ts, claims.ts and ssm-claims.ts.
use matchline.Base.{ℕ, Option, Text, text}
use matchline.Domain.Ladder.{LadderSourceKind}

pub data RelationshipType : Type 0 where
  powers wired_to controls serves explicit_parent family_related : RelationshipType
  structural_parent_candidate dependency : RelationshipType

abbrev pub relationship_name : RelationshipType → Text
relationship_name powers = text "POWERS"
relationship_name wired_to = text "WIRED_TO"
relationship_name controls = text "CONTROLS"
relationship_name serves = text "SERVES"
relationship_name explicit_parent = text "EXPLICIT_PARENT"
relationship_name family_related = text "FAMILY_RELATED"
relationship_name structural_parent_candidate = text "STRUCTURAL_PARENT_CANDIDATE"
relationship_name dependency = text "DEPENDENCY"

pub data RelationshipKind : Type 0 where
  structural_parent dependency : RelationshipKind

-- What a connection of each type is allowed to do.
unfoldable pub relationship_kind_of : RelationshipType → RelationshipKind
relationship_kind_of powers = structural_parent
relationship_kind_of wired_to = structural_parent
relationship_kind_of explicit_parent = structural_parent
relationship_kind_of family_related = structural_parent
relationship_kind_of structural_parent_candidate = structural_parent
relationship_kind_of controls = RelationshipKind.dependency
relationship_kind_of serves = RelationshipKind.dependency
relationship_kind_of RelationshipType.dependency = RelationshipKind.dependency

pub data SourceRef : Type 0 where
  model_object : Text → SourceRef
  sheet_row : Text → ℕ → SourceRef

-- Rows and rungs are counted from 1.
pub record Provenance : Type 0 where
  pub source_file : Text
  pub source_ref : SourceRef
  pub property_or_column : Option Text
  pub rule : Option Text
  pub fallback_rung : Option ℕ
  pub manual_decision : Option Text
  pub input_revision : Option Text
  pub profile_revision : Option Text

pub data SourceKind : Type 0 where
  model flow pmd mel manual : SourceKind

-- EVIDENCE_TIER
abbrev pub inferred : ℕ
inferred = 1

abbrev pub tracking_document : ℕ
tracking_document = 2

abbrev pub engineered_document : ℕ
engineered_document = 3

abbrev pub model_tier : ℕ
model_tier = 4

-- The child is the subject, and the proposed parent (or the upstream asset) is the target.
pub record SsmRelationshipClaim : Type 0 where
  pub subject_asset_id : Text
  pub target_asset_id : Text
  pub kind : RelationshipKind
  pub relationship_type : RelationshipType
  pub source : SourceKind
  pub rule : Text
  pub evidence_tier : ℕ
  pub provenance : Provenance
  pub ladder_source : LadderSourceKind
