-- ===== src/Relate/Sound.antt =====
-- packages/relationship-claims/src/assemble.ts, `assembleRelationshipClaims`: the claims that it returns.
use matchline.Base.{
  inl, inr, List, [], Text, text_eq, Map, keys, values, All, All-sort, Bool-cases, Comparator, ltb,
  length,
}
use matchline.Domain.Ladder.{profile_lookup, prior_ssm}
use matchline.Relate.Types.{ClaimSubject, AssembleOptions}
use matchline.Relate.Order.{compare_assembled}
use matchline.Relate.Assemble.{Assembly, profile_lookup_table, prior_ssm_table}
use matchline.Relate.Tiers.{take_override, take_tags, take_learned}
use matchline.Relate.Family.{take_edge, group_families}
use matchline.Relate.Output.{
  dedupe_claims, claim_key, known_ids, profile, role_rules, by_asset_id, with_overrides, stating,
  with_stated, with_lookup, with_edges, with_families, with_learned, with_prior, assembly_of,
  subjects_of, empty_assembly, assemble_relationship_claims, model_source_file_of,
}
use matchline.Relate.Pairs.{
  IsPairClaim, Sound, for_each-keeps, AreKeyed, subjects_of-AreKeyed, values-known,
}
use matchline.Relate.StatedPairs.{
  take_override-Sound, take_subject-Sound, take_tags-Sound, take_learned-Sound,
}
use matchline.Relate.FamilyPairs.{take_edge-Sound, group_families-AreFamilies, take_families-Sound}
use matchline.Relate.Dedupe.{kept-All}

module _ (by_id : Map Text ClaimSubject) (keyed : AreKeyed by_id) (opts : AssembleOptions) where
  abbrev Holds : Assembly → Type 0
  Holds = Sound (known_ids by_id opts)

  overrides-Sound : (a : Assembly) → Holds a → Holds (with_overrides by_id opts a)
  overrides-Sound =
      for_each-keeps Holds (take_override (keys by_id) (profile by_id opts))
        (take_override-Sound (keys by_id) (profile by_id opts)) 0 opts.manual_overrides

  stated-Sound : (a : Assembly) → Holds a → Holds (with_stated by_id opts a)
  stated-Sound =
      for_each-keeps Holds (stating by_id opts)
        (take_subject-Sound (keys by_id) (model_source_file_of opts.model_source_file)
          opts.resolve_tag)
        0 (by_asset_id (values by_id))

  lookup-Sound : (a : Assembly) → Holds a → Holds (with_lookup by_id opts a)
  lookup-Sound =
      for_each-keeps Holds
        (take_tags (keys by_id) (profile by_id opts) opts.resolve_tag profile_lookup
          profile_lookup_table)
        (take_tags-Sound (keys by_id) (profile by_id opts) opts.resolve_tag profile_lookup
          profile_lookup_table)
        0 opts.profile_lookup

  edges-Sound : (a : Assembly) → Holds a → Holds (with_edges by_id opts a)
  edges-Sound =
      for_each-keeps Holds (take_edge by_id (role_rules by_id opts))
        (take_edge-Sound by_id keyed (role_rules by_id opts)) 0 opts.flow_edges

  families-Sound : (a : Assembly) → Holds a → Holds (with_families by_id opts a)
  families-Sound a s = elim (Bool-cases (ltb 0 (length (role_rules by_id opts)))) [
    | inr untaught ↦ rw untaught s
    | inl taught ↦ rw taught (
        take_families-Sound (keys by_id) (profile by_id opts) (role_rules by_id opts)
          (values (group_families [] (values by_id))) a
          (group_families-AreFamilies (keys by_id) [] (values by_id) (values-known by_id keyed) tt)
          s)
  ]

  learned-Sound : (a : Assembly) → Holds a → Holds (with_learned by_id opts a)
  learned-Sound =
      for_each-keeps Holds (take_learned (keys by_id) (profile by_id opts))
        (take_learned-Sound (keys by_id) (profile by_id opts)) 0 opts.learned

  prior-Sound : (a : Assembly) → Holds a → Holds (with_prior by_id opts a)
  prior-Sound =
      for_each-keeps Holds
        (take_tags (keys by_id) (profile by_id opts) opts.resolve_tag prior_ssm prior_ssm_table)
        (take_tags-Sound (keys by_id) (profile by_id opts) opts.resolve_tag prior_ssm
          prior_ssm_table)
        0 opts.prior_ssm

  abbrev stated_stage : Assembly
  stated_stage =
      with_lookup by_id opts (with_stated by_id opts (with_overrides by_id opts empty_assembly))

  stated_stage-Sound : Holds stated_stage
  stated_stage-Sound =
      lookup-Sound (with_stated by_id opts (with_overrides by_id opts empty_assembly)) (
        stated-Sound (with_overrides by_id opts empty_assembly)
          (overrides-Sound empty_assembly (tt, tt)))

  assembly-Sound : Holds (assembly_of by_id opts)
  unfolding assembly_of
  assembly-Sound =
      prior-Sound
        (with_learned by_id opts (with_families by_id opts (with_edges by_id opts stated_stage)))
        (learned-Sound (with_families by_id opts (with_edges by_id opts stated_stage)) (
          families-Sound (with_edges by_id opts stated_stage)
            (edges-Sound stated_stage stated_stage-Sound)))

-- Nothing is invented: whatever the rules and the tag resolution are, every claim that assembly
-- returns, structural or dependency, stands between two different assets of the input.
pub assemble-IsPairClaim :
    (by_confidence : Comparator Text) (subjects : List ClaimSubject) (opts : AssembleOptions)
    → All
        (IsPairClaim (keys (subjects_of subjects)))
        (assemble_relationship_claims by_confidence subjects opts).structural
      × All
          (IsPairClaim (keys (subjects_of subjects)))
          (assemble_relationship_claims by_confidence subjects opts).dependencies
unfolding assemble_relationship_claims dedupe_claims
assemble-IsPairClaim by_confidence subjects opts =
    let (s, d) = assembly-Sound (subjects_of subjects) (subjects_of-AreKeyed subjects) opts in
    (
      kept-All claim_key (IsPairClaim (keys (subjects_of subjects))) [] _
          (All-sort compare_assembled _ _ s),
      kept-All claim_key (IsPairClaim (keys (subjects_of subjects))) [] _
          (All-sort compare_assembled _ _ d),
    )
