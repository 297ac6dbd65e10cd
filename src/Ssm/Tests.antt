-- ===== src/Ssm/Tests.antt =====
-- packages/ssm-compiler: runs of the fold and the ladder, and instances of their theorems.
use matchline.Base.{
  get, ◌≡◌, refl, ◌↔◌, inl, List, [], ◌∷◌, some, Text, text, text_eq, text_beq_iff, compare_text,
  All, any, includes, IsOrder, arith,
}
use matchline.Domain.Ladder.{
  LadderSourceKind, manual, explicit_model, profile_lookup, source_eq, review,
}
use matchline.Domain.Claim.{RelationshipType}
use matchline.Domain.Review.{ambiguous_parent, missing_boundary}
use matchline.Domain.Snapshot.{ResolvedDependency, root, unresolved}
use matchline.Ssm.Fold.{
  demote, missing, explicit_value, boundary_levels, differs, first_difference, lacking,
  first_missing, fold_boundaries,
}
use matchline.Ssm.Plant.{
  plant_levels, panel, remote_io, pump, valve, two_rungs, one_rung, valve_rung,
}
use matchline.Ssm.Fold.Boundary.{SharesLevel, FoldSpec}
use matchline.Ssm.Fold.Spec.{fold_boundaries_iff, shared_of_fold-keep}
use matchline.Ssm.Order.{
  compare_claims, compare_provenance, compare_source_ref, compare_optional, index_of, tier_index,
}
use matchline.Ssm.Order.Laws.{compare_claims-IsOrder}
use matchline.Ssm.Ladder.{
  default_ladder, with_suggestion, claim_pool, hold_from, add_candidate, index_from,
  index_candidates, collect_dependencies, base_dependencies,
}
use matchline.Ssm.Ladder.Names.{names, is_candidate, is_candidate-eq-names}
use matchline.Ssm.Resolve.{
  held_pool, fold_turn, single_turn, tier_turn, walk, start_walk, final_walk, losers,
  resolve_subject,
}
use matchline.Ssm.Resolve.Rungs.{Names, IsSole, Folds, unnamed, IsTied}
use matchline.Ssm.Resolve.Endings.{at, past}
use matchline.Ssm.Resolve.Placement.{
  IsStrongest, IsUnplaced, resolve_subject-parent_iff, resolve_subject-tied,
  resolve_subject-unknown, resolve_subject-rooted,
}
use mathlib.Core.List.{Mem}
use matchline.Ssm.Ladder.Keys.{dependency_key-injective}
use matchline.Ssm.Resolve.Demotions.{resolve_subject-demoted}
use matchline.Ssm.Resolve.Sharing.{resolve_subject-shares}
use matchline.Ssm.Resolve.Conservation.{claims_kept, made_about, Conserves, resolve_subject-perm}

fold_boundaries_iff_example :
    (fold_boundaries remote_io pump plant_levels ≡ demote (text "system"))
    ↔ FoldSpec remote_io pump (boundary_levels plant_levels) (demote (text "system"))
fold_boundaries_iff_example =
    fold_boundaries_iff remote_io pump plant_levels (demote (text "system"))

shared_of_fold-keep_example : All (SharesLevel remote_io panel) (boundary_levels plant_levels)
unfolding fold_boundaries first_difference first_missing boundary_levels differs explicit_value
    lacking
shared_of_fold-keep_example = shared_of_fold-keep remote_io panel plant_levels refl

compare_claims-IsOrder_example : IsOrder (compare_claims default_ladder)
compare_claims-IsOrder_example = compare_claims-IsOrder default_ladder

is_candidate-eq-names_example :
    is_candidate
      (index_candidates (held_pool two_rungs remote_io) two_rungs)
      explicit_model
      (text "PMP")
    ≡ any (names two_rungs explicit_model (text "PMP")) (held_pool two_rungs remote_io)
is_candidate-eq-names_example =
    is_candidate-eq-names two_rungs (held_pool two_rungs remote_io) explicit_model (text "PMP")

resolve_subject-parent_iff_example :
    ((resolve_subject remote_io two_rungs).node.parent.parent_asset_id ≡ some (text "PNL"))
    ↔ ((tier : LadderSourceKind) × IsStrongest two_rungs remote_io tier (text "PNL"))
resolve_subject-parent_iff_example = resolve_subject-parent_iff two_rungs remote_io (text "PNL")

resolve_subject-perm_example :
    Conserves remote_io.asset_id remote_io.model_tree_parent_id
      (made_about (get two_rungs.structural_by_subject remote_io.asset_id))
      (claims_kept (resolve_subject remote_io two_rungs).node)
resolve_subject-perm_example = resolve_subject-perm two_rungs remote_io

resolve_subject-rooted_example : IsUnplaced two_rungs pump root []
resolve_subject-rooted_example = resolve_subject-rooted two_rungs pump (inl refl)

no_manual : (r : Text) → ¬ Names one_rung remote_io manual r
unfolding claim_pool hold_from with_suggestion compare_claims compare_provenance compare_source_ref
    compare_optional index_of tier_index compare_text
no_manual r n = ground arith

two_parents : IsTied one_rung remote_io explicit_model
unfolding claim_pool hold_from with_suggestion compare_claims compare_provenance compare_source_ref
    compare_optional index_of tier_index compare_text
two_parents = record {
  one = text "PNL";
  other = text "PMP";
  apart = λ e. ground arith;
  named_one = refl;
  named_other = refl;
}

resolve_subject-tied_example :
    (ids : List Text) × IsUnplaced one_rung remote_io unresolved
      (ambiguous_parent (text "RIO") explicit_model ids ∷ [])
    × ((r : Text)
        → includes ids r ≡ any (names one_rung explicit_model r) (held_pool one_rung remote_io))
resolve_subject-tied_example =
    resolve_subject-tied one_rung remote_io explicit_model refl (past (unnamed no_manual) at)
      two_parents

valve-no_manual : (r : Text) → ¬ Names valve_rung valve manual r
unfolding claim_pool hold_from with_suggestion compare_claims compare_provenance compare_source_ref
    compare_optional index_of tier_index compare_text
valve-no_manual r n = ground arith

valve-IsSole : IsSole valve_rung valve explicit_model (text "PNL")
unfolding claim_pool hold_from with_suggestion compare_claims compare_provenance compare_source_ref
    compare_optional index_of tier_index compare_text
valve-IsSole = record { named = refl; only = λ r n. ground (arith, text_beq_iff (text "PNL") r) }

valve_gap :
    Folds valve_rung valve explicit_model
      (text "PNL")
      (missing (text "system") review (text "VLV" ∷ []))
unfolding fold_boundaries first_difference first_missing boundary_levels differs explicit_value
    lacking
valve_gap = record {
  sole = valve-IsSole;
  not_manual = λ e. cc;
  parent = panel;
  found = refl;
  outcome_is = refl;
}

resolve_subject-unknown_example :
    IsUnplaced valve_rung valve unresolved (missing_boundary (text "VLV") (text "system") ∷ [])
resolve_subject-unknown_example =
    resolve_subject-unknown valve_rung valve explicit_model (text "PNL") (text "system") review
      (text "VLV" ∷ []) refl (past (unnamed valve-no_manual) at) valve_gap

two-no_manual : (r : Text) → ¬ Names two_rungs remote_io manual r
unfolding claim_pool hold_from with_suggestion compare_claims compare_provenance compare_source_ref
    compare_optional index_of tier_index compare_text
two-no_manual r n = ground arith

pump-IsSole : IsSole two_rungs remote_io explicit_model (text "PMP")
unfolding claim_pool hold_from with_suggestion compare_claims compare_provenance compare_source_ref
    compare_optional index_of tier_index compare_text
pump-IsSole = record { named = refl; only = λ r n. ground (arith, text_beq_iff (text "PMP") r) }

pump_demoted : Folds two_rungs remote_io explicit_model (text "PMP") (demote (text "system"))
unfolding fold_boundaries first_difference first_missing boundary_levels differs explicit_value
    lacking
pump_demoted = record {
  sole = pump-IsSole;
  not_manual = λ e. cc;
  parent = pump;
  found = refl;
  outcome_is = refl;
}

resolve_subject-demoted_example :
    (d : ResolvedDependency) × Mem d (resolve_subject remote_io two_rungs).node.dependencies
    × (d.parent_asset_id ≡ text "PMP")
    × (d.relationship_type ≡ RelationshipType.dependency)
resolve_subject-demoted_example =
    resolve_subject-demoted two_rungs remote_io explicit_model (text "PMP") (text "system") refl
      (past (unnamed two-no_manual) at) pump_demoted

dependency_key-injective_example :
    (text "PNL" ≡ text "PNL") × (RelationshipType.dependency ≡ RelationshipType.dependency)
dependency_key-injective_example =
    dependency_key-injective (text "PNL") (text "PNL") RelationshipType.dependency
      RelationshipType.dependency refl

-- A better rung's parent across a boundary is demoted, and the weaker rung's parent is taken.
rio_under_panel :
    (resolve_subject remote_io two_rungs).node.parent.parent_asset_id ≡ some (text "PNL")
unfolding resolve_subject final_walk walk start_walk tier_turn single_turn fold_turn losers
    base_dependencies collect_dependencies index_candidates index_from add_candidate claim_pool
    hold_from with_suggestion compare_claims compare_provenance compare_source_ref compare_optional
    index_of tier_index compare_text fold_boundaries first_difference first_missing boundary_levels
    differs explicit_value lacking
rio_under_panel = refl

rio_rung : (resolve_subject remote_io two_rungs).node.parent.ladder_source ≡ some profile_lookup
unfolding resolve_subject final_walk walk start_walk tier_turn single_turn fold_turn losers
    base_dependencies collect_dependencies index_candidates index_from add_candidate claim_pool
    hold_from with_suggestion compare_claims compare_provenance compare_source_ref compare_optional
    index_of tier_index compare_text fold_boundaries first_difference first_missing boundary_levels
    differs explicit_value lacking
rio_rung = refl

resolve_subject-shares_example : All (SharesLevel remote_io panel) (boundary_levels plant_levels)
resolve_subject-shares_example =
    resolve_subject-shares two_rungs remote_io panel (text "PNL") refl rio_under_panel
      (λ e. cc (rio_rung, e))
