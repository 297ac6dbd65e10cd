-- ===== src/Relate/OneRung.antt =====
-- packages/relationship-claims/src/assemble.ts, `assembleRelationshipClaims`: one rung for each pair
-- of a family.
use matchline.Base.{
  ◌≡◌, ◌≢◌, sym, ap₂, ◌∙◌, inl, inr, List, [], Text, text_eq, Map, keys, values, includes, All,
  All-imp, All-sort, Bool-cases, Comparator, ltb, length,
}
use matchline.Domain.Ladder.{
  LadderSourceKind, manual, explicit_model, profile_lookup, flow_family, family_role,
  learned_description, prior_ssm,
}
use matchline.Domain.Claim.{SsmRelationshipClaim}
use matchline.Relate.Types.{ClaimSubject, AssembleOptions}
use matchline.Relate.Order.{compare_assembled}
use matchline.Relate.Assemble.{Assembly, pair_key, profile_lookup_table, prior_ssm_table}
use matchline.Relate.Tiers.{take_override, take_tags, take_learned}
use matchline.Relate.Family.{take_edge, group_families}
use matchline.Relate.Output.{
  dedupe_claims, claim_key, profile, role_rules, by_asset_id, with_overrides, stating, with_stated,
  with_lookup, with_edges, with_families, with_learned, with_prior, assembly_of, subjects_of,
  empty_assembly, assemble_relationship_claims, model_source_file_of,
}
use matchline.Relate.Pairs.{for_each-keeps}
use matchline.Relate.StatedClaims.{
  Holds, Allows, take_override-Holds, take_tags-Holds, take_learned-Holds, take_subject-Holds,
}
use matchline.Relate.Exclusive.{Before, After, take_edge-Before, take_families-After}
use matchline.Relate.Dedupe.{kept-All}

-- No pair is claimed on the flow rung and on the family rung.
abbrev pub AreExclusive : SsmRelationshipClaim → SsmRelationshipClaim → Type 0
AreExclusive c d =
    c.ladder_source ≡ flow_family
    → d.ladder_source ≡ family_role
    → c.subject_asset_id ≡ d.subject_asset_id
    → c.target_asset_id ≢ d.target_asset_id

After-AreExclusive :
    (pairs : List Text) (c d : SsmRelationshipClaim)
    → After pairs c
    → After pairs d
    → AreExclusive c d
After-AreExclusive pairs c d (i, _) (_, o) f r s t =
    cc (ap₂ (λ x y. includes pairs (pair_key x y)) s t, i f, o r)

After-of_Before : (pairs : List Text) (c : SsmRelationshipClaim) → Before pairs c → After pairs c
After-of_Before pairs c (i, n) = (i, λ e. absurd (n e))

other_rung-Before : (l : LadderSourceKind) → l ≢ flow_family → l ≢ family_role → Allows Before [] l
other_rung-Before l f r pairs c e = (λ g. absurd (f (sym e ∙ g)), λ g. r (sym e ∙ g))

other_rung-After : (l : LadderSourceKind) → l ≢ flow_family → l ≢ family_role → Allows After [] l
other_rung-After l f r pairs c e = After-of_Before pairs c (other_rung-Before l f r pairs c e)

module _ (by_id : Map Text ClaimSubject) (opts : AssembleOptions) where
  abbrev stated_stage : Assembly
  stated_stage =
      with_lookup by_id opts (with_stated by_id opts (with_overrides by_id opts empty_assembly))

  stated_stage-Before : Holds Before stated_stage
  stated_stage-Before =
      for_each-keeps (Holds Before)
        (take_tags (keys by_id) (profile by_id opts) opts.resolve_tag profile_lookup
          profile_lookup_table)
        (take_tags-Holds Before (keys by_id) (profile by_id opts) opts.resolve_tag profile_lookup
          profile_lookup_table (other_rung-Before profile_lookup (λ e. cc) (λ e. cc)))
        0 opts.profile_lookup (with_stated by_id opts (with_overrides by_id opts empty_assembly))
        (for_each-keeps (Holds Before) (stating by_id opts)
          (take_subject-Holds Before (keys by_id) (model_source_file_of opts.model_source_file)
            opts.resolve_tag (other_rung-Before explicit_model (λ e. cc) (λ e. cc)))
          0 (by_asset_id (values by_id)) (with_overrides by_id opts empty_assembly)
          (for_each-keeps (Holds Before) (take_override (keys by_id) (profile by_id opts))
            (take_override-Holds Before (keys by_id) (profile by_id opts)
              (other_rung-Before manual (λ e. cc) (λ e. cc)))
            0 opts.manual_overrides empty_assembly tt))

  edges_stage-After : Holds After (with_edges by_id opts stated_stage)
  edges_stage-After =
      All-imp {P = Before (with_edges by_id opts stated_stage).anchored_pairs}
        (After-of_Before (with_edges by_id opts stated_stage).anchored_pairs) _
        (for_each-keeps (Holds Before) (take_edge by_id (role_rules by_id opts))
          (take_edge-Before by_id (role_rules by_id opts)) 0 opts.flow_edges stated_stage
          stated_stage-Before)

  families-After : (a : Assembly) → Holds After a → Holds After (with_families by_id opts a)
  families-After a s = elim (Bool-cases (ltb 0 (length (role_rules by_id opts)))) [
    | inr untaught ↦ rw untaught s
    | inl taught ↦ rw taught (
        take_families-After (profile by_id opts) (role_rules by_id opts)
          (values (group_families [] (values by_id))) a s)
  ]

  learned-After : (a : Assembly) → Holds After a → Holds After (with_learned by_id opts a)
  learned-After =
      for_each-keeps (Holds After) (take_learned (keys by_id) (profile by_id opts))
        (take_learned-Holds After (keys by_id) (profile by_id opts)
          (other_rung-After learned_description (λ e. cc) (λ e. cc)))
        0 opts.learned

  prior-After : (a : Assembly) → Holds After a → Holds After (with_prior by_id opts a)
  prior-After =
      for_each-keeps (Holds After)
        (take_tags (keys by_id) (profile by_id opts) opts.resolve_tag prior_ssm prior_ssm_table)
        (take_tags-Holds After (keys by_id) (profile by_id opts) opts.resolve_tag prior_ssm
          prior_ssm_table (other_rung-After prior_ssm (λ e. cc) (λ e. cc)))
        0 opts.prior_ssm

  assembly-After : Holds After (assembly_of by_id opts)
  unfolding assembly_of
  assembly-After =
      prior-After
        (with_learned by_id opts (with_families by_id opts (with_edges by_id opts stated_stage)))
        (learned-After (with_families by_id opts (with_edges by_id opts stated_stage))
          (families-After (with_edges by_id opts stated_stage) edges_stage-After))

-- One piece of evidence is not counted as two rungs: no pair of assets is claimed both on the
-- flow-family rung, where an edge anchors it, and on the family-role rung.
pub assemble-AreExclusive :
    (by_confidence : Comparator Text) (subjects : List ClaimSubject) (opts : AssembleOptions)
    → All
        (λ c.
          All
            (AreExclusive c)
            (assemble_relationship_claims by_confidence subjects opts).structural)
        (assemble_relationship_claims by_confidence subjects opts).structural
unfolding assemble_relationship_claims dedupe_claims
assemble-AreExclusive by_confidence subjects opts =
    let pairs = (assembly_of (subjects_of subjects) opts).anchored_pairs in
    let all =
      kept-All claim_key (After pairs) [] _
        (All-sort compare_assembled (After pairs) _ (assembly-After (subjects_of subjects) opts)) in
    All-imp {P = After pairs}
      (λ c i. All-imp {P = After pairs} (λ d j. After-AreExclusive pairs c d i j) _ all) _ all
