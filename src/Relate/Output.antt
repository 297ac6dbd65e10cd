-- ===== src/Relate/Output.antt =====
-- packages/relationship-claims/src/assemble.ts, `dedupe` and `assembleRelationshipClaims`: the order of
-- the tiers and what is returned.
use matchline.Base.{
  ℕ, zero, List, [], ◌∷◌, ◌++◌, Option, none, some, if◌then◌else◌, ltb, Text, text_eq, compare_text,
  Map, put_new, keys, values, length, includes, add, sort, Comparator,
}
use matchline.Domain.Ladder.{profile_lookup, prior_ssm, source_name}
use matchline.Domain.Claim.{SsmRelationshipClaim, relationship_name}
use matchline.Relate.Mapping.{MakeRootDirective}
use matchline.Relate.Types.{
  ClaimSubject, ProfileSourceRef, AssembleOptions, NestingProposal, AssembledClaims,
}
use matchline.Relate.Order.{compare_assembled, compare_proposals, compare_skipped}
use matchline.Relate.Assemble.{
  Assembly, for_each, default_profile_source, default_model_source_file, profile_lookup_table,
  prior_ssm_table,
}
use matchline.Relate.Tiers.{take_override, take_subject, take_tags, take_learned, index_role_graph}
use matchline.Relate.Family.{take_edge, group_families, take_families}

-- The parts are joined by NUL.
abbrev pub claim_key : SsmRelationshipClaim → Text
claim_key c =
    c.subject_asset_id
    ++ zero ∷ c.target_asset_id
    ++ zero ∷ relationship_name c.relationship_type
    ++ zero ∷ source_name c.ladder_source

abbrev pub proposal_key : NestingProposal → Text
proposal_key p =
    p.asset_id ++ zero ∷ p.proposed_parent_id ++ zero ∷ p.rule_detail ++ zero ∷ p.confidence

-- The loop that both lists go through: the first of each key is kept. (`add` leaves a key that is
-- there.)
unfoldable pub first_of_each {ℓ} : {A : Type ℓ} → (A → Text) → List Text → List A → List A
first_of_each key seen [] = []
first_of_each key seen (x ∷ xs) =
    let rest = first_of_each key (add seen (key x)) xs in
    if includes seen (key x) then rest else x ∷ rest

unfoldable pub dedupe_claims : List SsmRelationshipClaim → List SsmRelationshipClaim
dedupe_claims claims = first_of_each claim_key [] (sort compare_assembled claims)

unfoldable pub dedupe_proposals : Comparator Text → List NestingProposal → List NestingProposal
dedupe_proposals by_confidence proposals =
    first_of_each proposal_key [] (sort (compare_proposals by_confidence) proposals)

-- The loop that fills `subjectById`.
unfoldable pub index_claim_subjects :
    Map Text ClaimSubject → List ClaimSubject → Map Text ClaimSubject
index_claim_subjects by_id [] = by_id
index_claim_subjects by_id (s ∷ subjects) =
    index_claim_subjects (put_new by_id s.asset_id s) subjects

abbrev pub profile_source_of : Option ProfileSourceRef → ProfileSourceRef
profile_source_of none = default_profile_source
profile_source_of (some source) = source

abbrev pub model_source_file_of : Option Text → Text
model_source_file_of none = default_model_source_file
model_source_file_of (some file) = file

abbrev pub by_asset_id : List ClaimSubject → List ClaimSubject
by_asset_id subjects = sort (λ l r. compare_text l.asset_id r.asset_id) subjects

abbrev by_child : List MakeRootDirective → List MakeRootDirective
by_child directives = sort (λ l r. compare_text l.child_asset_id r.child_asset_id) directives

abbrev pub empty_assembly : Assembly
empty_assembly = record {
  structural = [];
  dependencies = [];
  proposals = [];
  make_root = [];
  skipped = [];
  anchored_pairs = [];
}

module _ (subject_by_id : Map Text ClaimSubject) (opts : AssembleOptions) where
  abbrev pub profile : ProfileSourceRef
  profile = profile_source_of opts.profile_source

  abbrev pub role_rules : Map Text ℕ
  role_rules = index_role_graph opts.role_graph

  abbrev pub known_ids : List Text
  known_ids = keys subject_by_id

  abbrev pub with_overrides : Assembly → Assembly
  with_overrides a = for_each (take_override known_ids profile) 0 opts.manual_overrides a

  abbrev pub stating : ℕ → ClaimSubject → Assembly → Assembly
  stating = take_subject known_ids (model_source_file_of opts.model_source_file) opts.resolve_tag

  abbrev pub with_stated : Assembly → Assembly
  with_stated a = for_each stating 0 (by_asset_id (values subject_by_id)) a

  abbrev pub with_lookup : Assembly → Assembly
  with_lookup a =
      for_each (take_tags known_ids profile opts.resolve_tag profile_lookup profile_lookup_table) 0
        opts.profile_lookup a

  abbrev pub with_edges : Assembly → Assembly
  with_edges a = for_each (take_edge subject_by_id role_rules) 0 opts.flow_edges a

  abbrev pub with_families : Assembly → Assembly
  with_families a =
      if ltb 0 (length role_rules)
      then take_families profile role_rules (values (group_families [] (values subject_by_id))) a
      else a

  abbrev pub with_learned : Assembly → Assembly
  with_learned a = for_each (take_learned known_ids profile) 0 opts.learned a

  abbrev pub with_prior : Assembly → Assembly
  with_prior a =
      for_each (take_tags known_ids profile opts.resolve_tag prior_ssm prior_ssm_table) 0
        opts.prior_ssm a

  -- The tiers in their order.
  unfoldable pub assembly_of : Assembly
  assembly_of = with_prior (
      with_learned
        (with_families (with_edges (with_lookup (with_stated (with_overrides empty_assembly))))))

abbrev pub subjects_of : List ClaimSubject → Map Text ClaimSubject
subjects_of subjects = index_claim_subjects [] subjects

unfoldable pub assemble_relationship_claims :
    Comparator Text → List ClaimSubject → AssembleOptions → AssembledClaims
assemble_relationship_claims by_confidence subjects opts = record {
  structural = dedupe_claims (assembly_of (subjects_of subjects) opts).structural;
  dependencies = dedupe_claims (assembly_of (subjects_of subjects) opts).dependencies;
  proposals = dedupe_proposals by_confidence (assembly_of (subjects_of subjects) opts).proposals;
  make_root = by_child (assembly_of (subjects_of subjects) opts).make_root;
  skipped = sort compare_skipped (assembly_of (subjects_of subjects) opts).skipped;
}
