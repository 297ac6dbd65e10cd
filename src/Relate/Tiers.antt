-- ===== src/Relate/Tiers.antt =====
-- packages/relationship-claims/src/assemble.ts, `assembleRelationshipClaims`: the seven tiers, each the
-- body of its loop.
use matchline.Base.{
  ℕ, suc, ◌+◌, not, List, [], ◌∷◌, ◌++◌, Option, none, some, if◌then◌else◌, ◌==◌, Text, text_eq,
  Map, put_new, includes,
}
use matchline.Domain.Ladder.{LadderSourceKind, manual, explicit_model, learned_description}
use matchline.Domain.Claim.{Provenance, model_object}
use matchline.Relate.Mapping.{rule_of, ladder_rung, MakeRootDirective}
use matchline.Relate.Types.{
  RoleRule, ManualRelationshipOverride, ClaimSubject, Grade, claim, proposal, LearnedClaimInput,
  TagPair, ProfileSourceRef, unknown_child_asset, unresolvable_parent_tag,
}
use matchline.Relate.Assemble.{
  Assembly, note, push, pair_fault, checked, Pairing, pair, fault, resolve_pair, pair_key,
  profile_provenance, structural_claim, manual_override_table, learned_rule_table,
}

-- A directive for a root joins the list.
abbrev pub push_root : MakeRootDirective → Assembly → Assembly
push_root d a = record a { make_root = a.make_root ++ d ∷ [] }

module _ (known : List Text) (profile_source : ProfileSourceRef) where
  abbrev pub override_provenance : ℕ → ManualRelationshipOverride → Provenance
  override_provenance position override =
      profile_provenance profile_source manual_override_table (position + 1) (rule_of manual)
        (ladder_rung manual) override.note

  abbrev pub overridden : ℕ → ManualRelationshipOverride → Option Text → Assembly → Assembly
  overridden position override none a =
      push_root
        (record {
          child_asset_id = override.child_asset_id;
          provenance = override_provenance position override;
          note = override.note;
        })
        a
  overridden position override (some parent_asset_id) a =
      checked (pair_fault known override.child_asset_id parent_asset_id) manual
        override.child_asset_id parent_asset_id
        (push
          (structural_claim manual override.child_asset_id parent_asset_id
            (override_provenance position override))
          a)
        a

  -- Tier 1.
  unfoldable pub take_override : ℕ → ManualRelationshipOverride → Assembly → Assembly
  take_override position override a =
      if not (includes known override.child_asset_id)
      then note manual unknown_child_asset override.child_asset_id override.parent_asset_id a
      else overridden position override override.parent_asset_id a

  abbrev pub looked_up : LadderSourceKind → Text → ℕ → TagPair → Pairing → Assembly → Assembly
  looked_up ladder_source table position tags (pair child_asset_id parent_asset_id) a =
      push
        (structural_claim ladder_source child_asset_id parent_asset_id (
          profile_provenance profile_source table (position + 1) (rule_of ladder_source)
            (ladder_rung ladder_source) none))
        a
  looked_up ladder_source table position tags (fault reason) a =
      note ladder_source reason tags.child_tag (some tags.parent_tag) a

  -- Tiers 3 and 7, which write one body for two tables.
  unfoldable pub take_tags :
      (Text → Option Text) → LadderSourceKind → Text → ℕ → TagPair → Assembly → Assembly
  take_tags resolve_tag ladder_source table position tags a =
      looked_up ladder_source table position tags (resolve_pair resolve_tag known tags) a

  abbrev pub graded : ℕ → LearnedClaimInput → Grade → Assembly → Assembly
  graded position learned proposal a = record a {
    proposals =
        a.proposals
        ++ record {
          asset_id = learned.child_asset_id;
          proposed_parent_id = learned.parent_asset_id;
          rule_detail = learned.rule_detail;
          confidence = learned.confidence;
        }
          ∷ [];
  }
  graded position learned claim a =
      push
        (structural_claim learned_description learned.child_asset_id learned.parent_asset_id (
          profile_provenance profile_source learned_rule_table (position + 1) learned.rule_detail
            (ladder_rung learned_description) none))
        a

  -- Tier 6.
  unfoldable pub take_learned : ℕ → LearnedClaimInput → Assembly → Assembly
  take_learned position learned a =
      checked (pair_fault known learned.child_asset_id learned.parent_asset_id) learned_description
        learned.child_asset_id learned.parent_asset_id (graded position learned learned.grade a) a

module _ (known : List Text) (model_source_file : Text) (resolve_tag : Text → Option Text) where
  abbrev pub parent_provenance : ClaimSubject → Option Provenance → Provenance
  parent_provenance subject none = record {
    source_file = model_source_file;
    source_ref = model_object subject.asset_id;
    property_or_column = none;
    rule = some (rule_of explicit_model);
    fallback_rung = some (ladder_rung explicit_model);
    manual_decision = none;
    input_revision = none;
    profile_revision = none;
  }
  parent_provenance subject (some provenance) = record provenance {
    fallback_rung = some (ladder_rung explicit_model);
  }

  abbrev pub tag_resolved : ClaimSubject → Text → Option Text → Assembly → Assembly
  tag_resolved subject parent_tag none a =
      note explicit_model unresolvable_parent_tag subject.asset_id (some parent_tag) a
  tag_resolved subject parent_tag (some parent_asset_id) a =
      checked (pair_fault known subject.asset_id parent_asset_id) explicit_model subject.asset_id
        parent_tag
        (push
          (structural_claim explicit_model subject.asset_id parent_asset_id
            (parent_provenance subject subject.explicit_parent_provenance))
          a)
        a

  abbrev pub tag_stated : ClaimSubject → Option Text → Assembly → Assembly
  tag_stated subject none a = a
  tag_stated subject (some parent_tag) a =
      if parent_tag == [] then a else tag_resolved subject parent_tag (resolve_tag parent_tag) a

  -- Tier 2.
  unfoldable pub take_subject : ℕ → ClaimSubject → Assembly → Assembly
  take_subject position subject a = tag_stated subject subject.explicit_parent_tag a

-- The loop of `indexRoleGraph`.
unfoldable pub index_rules : ℕ → Map Text ℕ → List RoleRule → Map Text ℕ
index_rules position index [] = index
index_rules position index (rule ∷ rules) =
    index_rules (suc position)
      (put_new index (pair_key rule.parent_role rule.child_role) (position + 1)) rules

abbrev pub index_role_graph : List RoleRule → Map Text ℕ
index_role_graph rules = index_rules 0 [] rules
