-- ===== src/Relate/Assemble.antt =====
-- packages/relationship-claims/src/assemble.ts.
use matchline.Base.{
  ℕ, zero, suc, not, List, [], ◌∷◌, ◌++◌, Option, none, some, if◌then◌else◌, ◌==◌, Text, text,
  text_eq, includes,
}
use matchline.Domain.Ladder.{LadderSourceKind, flow_family}
use matchline.Domain.Claim.{
  SsmRelationshipClaim, Provenance, RelationshipKind, structural_parent, RelationshipType,
  sheet_row,
}
use matchline.Relate.Mapping.{
  evidence_tier_of, kind_of, relationship_type_of, rule_of, MakeRootDirective,
}
use matchline.Relate.Types.{
  TagPair, ProfileSourceRef, SkipReason, unknown_child_asset, unknown_parent_asset,
  unresolvable_child_tag, unresolvable_parent_tag, self_parent, SkippedClaimInput, NestingProposal,
}

abbrev pub manual_override_table : Text
manual_override_table = text "manualOverrides"

abbrev pub profile_lookup_table : Text
profile_lookup_table = text "profileLookup"

abbrev pub prior_ssm_table : Text
prior_ssm_table = text "priorSsm"

abbrev pub learned_rule_table : Text
learned_rule_table = text "learnedRules"

abbrev pub role_graph_table : Text
role_graph_table = text "roleGraph"

abbrev pub default_profile_source : ProfileSourceRef
default_profile_source = record { source_file = text "site-profile"; profile_revision = none }

abbrev pub default_model_source_file : Text
default_model_source_file = text "model"

-- The parts are joined by NUL.
abbrev pub pair_key : Text → Text → Text
pair_key child_asset_id parent_asset_id = child_asset_id ++ zero ∷ parent_asset_id

abbrev pub profile_provenance : ProfileSourceRef → Text → ℕ → Text → ℕ → Option Text → Provenance
profile_provenance source sheet row rule fallback_rung manual_decision = record {
  source_file = source.source_file;
  source_ref = sheet_row sheet row;
  property_or_column = none;
  rule = some rule;
  fallback_rung = some fallback_rung;
  manual_decision = manual_decision;
  input_revision = none;
  profile_revision = source.profile_revision;
}

abbrev pub structural_claim : LadderSourceKind → Text → Text → Provenance → SsmRelationshipClaim
structural_claim ladder_source child_asset_id parent_asset_id provenance = record {
  subject_asset_id = child_asset_id;
  target_asset_id = parent_asset_id;
  kind = structural_parent;
  relationship_type = relationship_type_of ladder_source;
  source = kind_of ladder_source;
  rule = rule_of ladder_source;
  evidence_tier = evidence_tier_of ladder_source;
  ladder_source = ladder_source;
  provenance = provenance;
}

abbrev pub dependency_claim : Text → Text → RelationshipType → Provenance → SsmRelationshipClaim
dependency_claim dependent_asset_id upstream_asset_id relationship_type provenance = record {
  subject_asset_id = dependent_asset_id;
  target_asset_id = upstream_asset_id;
  kind = RelationshipKind.dependency;
  relationship_type = relationship_type;
  source = kind_of flow_family;
  rule = text "relate.flowDependency";
  evidence_tier = evidence_tier_of flow_family;
  ladder_source = flow_family;
  provenance = provenance;
}

-- The lists that `assembleRelationshipClaims` fills, the skip log, and `anchoredPairs`.
pub record Assembly : Type 0 where
  pub structural : List SsmRelationshipClaim
  pub dependencies : List SsmRelationshipClaim
  pub proposals : List NestingProposal
  pub make_root : List MakeRootDirective
  pub skipped : List SkippedClaimInput
  pub anchored_pairs : List Text

abbrev pub note : LadderSourceKind → SkipReason → Text → Option Text → Assembly → Assembly
note ladder_source reason child_ref parent_ref a = record a {
  skipped =
      a.skipped
      ++ record {
        ladder_source = ladder_source;
        reason = reason;
        child_ref = child_ref;
        parent_ref = parent_ref;
      }
        ∷ [];
}

abbrev pub push : SsmRelationshipClaim → Assembly → Assembly
push c a = record a { structural = a.structural ++ c ∷ [] }

-- What `pairIsUsable` finds wrong with a pair.
unfoldable pub pair_fault : List Text → Text → Text → Option SkipReason
pair_fault known child_asset_id parent_asset_id =
    if not (includes known child_asset_id)
    then some unknown_child_asset
    else if not (includes known parent_asset_id)
    then some unknown_parent_asset
    else if child_asset_id == parent_asset_id
    then some self_parent
    else none

-- `if (!pairIsUsable(…)) return;` in front of the rest of a body, which is `accepted`.
abbrev pub checked :
    Option SkipReason → LadderSourceKind → Text → Text → Assembly → Assembly → Assembly
checked none ladder_source child_ref parent_ref accepted a = accepted
checked (some reason) ladder_source child_ref parent_ref accepted a =
    note ladder_source reason child_ref (some parent_ref) a

-- A pair of assets, or why there is none.
pub data Pairing : Type 0 where
  pair : (child_asset_id parent_asset_id : Text) → Pairing
  fault : SkipReason → Pairing

abbrev pub paired : Option SkipReason → Text → Text → Pairing
paired none child_asset_id parent_asset_id = pair child_asset_id parent_asset_id
paired (some reason) child_asset_id parent_asset_id = fault reason

unfoldable pub resolve_pair : (Text → Option Text) → List Text → TagPair → Pairing
unfolding pair_fault
resolve_pair resolve_tag known tags = elim (resolve_tag tags.child_tag) [
  | none ↦ fault unresolvable_child_tag
  | some child_asset_id ↦ elim (resolve_tag tags.parent_tag) [
    | none ↦ fault unresolvable_parent_tag
    | some parent_asset_id ↦
        paired (pair_fault known child_asset_id parent_asset_id) child_asset_id parent_asset_id
  ]
]

-- `xs.forEach((x, position) => …)`, from a position on.
abbrev pub for_each {ℓ κ} : {A : Type ℓ} {S : Type κ} → (ℕ → A → S → S) → ℕ → List A → S → S
for_each f n [] s = s
for_each f n (x ∷ xs) s = for_each f (suc n) xs (f n x s)
