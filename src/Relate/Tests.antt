-- ===== src/Relate/Tests.antt =====
-- packages/relationship-claims: a small site, runs of the assembly, and instances of its theorems.
use matchline.Base.{
  ◌≡◌, refl, List, [], ◌∷◌, Option, none, some, if◌then◌else◌, ◌==◌, Text, text, text_eq,
  compare_text, keys, map, All, includes, IsDistinct,
}
use matchline.Domain.Claim.{SsmRelationshipClaim, powers, model_object, Provenance}
use matchline.Domain.Ladder.{manual, flow_family, family_role}
use matchline.Relate.Mapping.{ladder_rung}
use matchline.Relate.Types.{
  ClaimSubject, AssembleOptions, proposal, Grade, LearnedClaimInput, unknown_child_asset,
  unknown_parent_asset, self_parent,
}
use matchline.Relate.Order.{compare_assembled}
use matchline.Relate.Assemble.{pair_fault, resolve_pair, structural_claim}
use matchline.Relate.Tiers.{take_override, take_subject, take_tags, take_learned, index_rules}
use matchline.Relate.Family.{
  take_edge, group_families, take_members, take_children, take_parents, take_families,
}
use matchline.Relate.Output.{
  first_of_each, dedupe_claims, claim_key, index_claim_subjects, subjects_of, empty_assembly,
  with_overrides, with_lookup, with_learned, with_prior, assembly_of, assemble_relationship_claims,
}
use matchline.Relate.Pairs.{IsPairClaim}
use matchline.Relate.Dedupe.{dedupe_claims-IsDistinct}
use matchline.Relate.OneRung.{AreExclusive, assemble-AreExclusive}
use matchline.Relate.Accounts.{entries, with_inputs-entries}
use matchline.Relate.Grades.{Adds, with_learned-Adds}
use matchline.Relate.Sound.{assemble-IsPairClaim}
use matchline.Ssm.Order.{compare_provenance, compare_source_ref, compare_optional}

abbrev asset : Text → Text → ClaimSubject
asset asset_id role = record {
  asset_id = asset_id;
  canonical_tag = asset_id;
  role = some role;
  family_key = some (text "001");
  explicit_parent_tag = none;
  explicit_parent_provenance = none;
}

abbrev site : List ClaimSubject
site =
    asset (text "PLC1") (text "PLC")
    ∷ asset (text "VFD1") (text "VFD")
    ∷ asset (text "VFD2") (text "VFD")
    ∷ []

abbrev wiring : Provenance
wiring = record {
  source_file = text "wiring";
  source_ref = model_object (text "W1");
  property_or_column = none;
  rule = none;
  fallback_rung = none;
  manual_decision = none;
  input_revision = none;
  profile_revision = none;
}

abbrev spelled : Text → Option Text
spelled tag = if tag == text "vfd2" then some (text "VFD2") else none

-- One taught pairing, one edge within the family, a self-parent by hand, and a lookup that is dead.
abbrev options : AssembleOptions
options = record {
  role_graph = record { parent_role = text "PLC"; child_role = text "VFD" } ∷ [];
  flow_edges =
      record {
        from_asset_id = text "PLC1";
        to_asset_id = text "VFD1";
        relationship_type = powers;
        provenance = wiring;
      }
      ∷ [];
  learned =
      record {
        child_asset_id = text "VFD2";
        parent_asset_id = text "VFD1";
        rule_detail = text "drives";
        confidence = text "0.5";
        grade = proposal;
      }
      ∷ [];
  prior_ssm = [];
  profile_lookup = record { child_tag = text "vfd2"; parent_tag = text "plc9" } ∷ [];
  manual_overrides =
      record { child_asset_id = text "PLC1"; parent_asset_id = some (text "PLC1"); note = none }
      ∷ [];
  resolve_tag = spelled;
  profile_source = none;
  model_source_file = none;
}

assemble-IsPairClaim_example :
    All
      (IsPairClaim (keys (subjects_of site)))
      (assemble_relationship_claims compare_text site options).structural
    × All
        (IsPairClaim (keys (subjects_of site)))
        (assemble_relationship_claims compare_text site options).dependencies
assemble-IsPairClaim_example = assemble-IsPairClaim compare_text site options

assemble-AreExclusive_example :
    All
      (λ c.
        All (AreExclusive c) (assemble_relationship_claims compare_text site options).structural)
      (assemble_relationship_claims compare_text site options).structural
assemble-AreExclusive_example = assemble-AreExclusive compare_text site options

with_inputs-entries_example :
    (entries (with_overrides (subjects_of site) options empty_assembly) ≡ 1)
    × (entries (with_lookup (subjects_of site) options empty_assembly) ≡ 1)
    × (entries (with_learned (subjects_of site) options empty_assembly) ≡ 1)
    × (entries (with_prior (subjects_of site) options empty_assembly) ≡ 0)
with_inputs-entries_example = with_inputs-entries (subjects_of site) options empty_assembly

-- One rule of each kind: a claim, a proposal, and three skips.
abbrev rule : Text → Text → Grade → LearnedClaimInput
rule child parent grade = record {
  child_asset_id = child;
  parent_asset_id = parent;
  rule_detail = text "drives stand below their PLC";
  confidence = text "high";
  grade = grade;
}

abbrev taught : AssembleOptions
taught = record options {
  learned =
      rule (text "VFD1") (text "PLC1") Grade.claim
      ∷ rule (text "VFD2") (text "PLC1") Grade.proposal
      ∷ rule (text "VFD9") (text "PLC1") Grade.claim
      ∷ rule (text "VFD1") (text "PLC9") Grade.proposal
      ∷ rule (text "PLC1") (text "PLC1") Grade.claim
      ∷ [];
}

taught_skips :
    map (λ s. s.reason) (with_learned (subjects_of site) taught empty_assembly).skipped
    ≡ unknown_child_asset ∷ unknown_parent_asset ∷ self_parent ∷ []
unfolding pair_fault index_claim_subjects take_learned
taught_skips = refl

with_learned-Adds_example :
    Adds
      (keys (subjects_of site))
      taught.learned
      empty_assembly
      (with_learned (subjects_of site) taught empty_assembly)
with_learned-Adds_example = with_learned-Adds (subjects_of site) taught empty_assembly

abbrev twice : List SsmRelationshipClaim
twice =
    structural_claim manual (text "VFD1") (text "PLC1") wiring
    ∷ structural_claim manual (text "VFD1") (text "PLC1") wiring
    ∷ structural_claim flow_family (text "VFD1") (text "PLC1") wiring
    ∷ []

dedupe_claims-IsDistinct_example :
    IsDistinct (map claim_key (dedupe_claims twice))
    × ((k : Text)
        → includes (map claim_key (dedupe_claims twice)) k ≡ includes (map claim_key twice) k)
dedupe_claims-IsDistinct_example = dedupe_claims-IsDistinct twice

-- VFD1 is anchored by the edge, VFD2 by family and role.
site_claims :
    map claim_key (assemble_relationship_claims compare_text site options).structural
    ≡ claim_key (structural_claim flow_family (text "VFD1") (text "PLC1") wiring)
      ∷ claim_key (structural_claim family_role (text "VFD2") (text "PLC1") wiring)
      ∷ []
unfolding assemble_relationship_claims dedupe_claims first_of_each index_claim_subjects assembly_of
    take_override take_subject take_tags take_learned index_rules take_edge group_families
    take_members take_children take_parents take_families pair_fault resolve_pair compare_assembled
    compare_provenance compare_source_ref compare_optional compare_text ladder_rung
site_claims = refl
