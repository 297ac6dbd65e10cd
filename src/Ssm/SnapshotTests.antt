-- ===== src/Ssm/SnapshotTests.antt =====
-- packages/ssm-compiler: runs of `compileSnapshot`, and instances of the theorems about it.
use matchline.Base.{
  ◌≡◌, refl, true, [], ◌∷◌, some, text, text_eq, compare_text, get, has, any, All, ◌==◌, sort,
}
use matchline.Domain.Ladder.{explicit_model}
use matchline.Domain.Review.{ReviewItem}
use matchline.Domain.Snapshot.{ResolvedAssetNode}
use matchline.Ssm.Plant.{plant_levels, panel, placed_in, looped, valve, claimed}
use matchline.Ssm.Fold.{
  CompileSubject, explicit_value, boundary_levels, differs, first_difference, lacking,
  first_missing, fold_boundaries,
}
use matchline.Ssm.Fold.Boundary.{SharesLevel}
use matchline.Ssm.Order.{
  compare_claims, compare_provenance, compare_source_ref, compare_optional, index_of, tier_index,
}
use matchline.Ssm.Ladder.{
  with_suggestion, claim_pool, hold_from, add_candidate, index_from, index_candidates,
  collect_dependencies, base_dependencies,
}
use matchline.Ssm.Resolve.{
  fold_turn, single_turn, tier_turn, walk, start_walk, final_walk, losers, resolve_subject,
}
use matchline.Ssm.Cycles.{
  links_from, climbs_on, climb, slice, closed, add_all, search_from, search_all, find_cycles,
  weakest_from, weakest_member, downgrade,
}
use matchline.Ssm.Cycles.Roots.{ReachesRoot}
use matchline.Ssm.Cycles.Links.{parent_at}
use matchline.Ssm.Snapshot.{
  CompileInput, index_subjects, subject_index, group_claims, collect_roots, context_of, resolve_all,
  break_cycle, break_cycles, cycles_of, compile_snapshot,
}
use mathlib.Core.List.{Mem}
use matchline.Ssm.Snapshot.Items.{compile_snapshot-raised}
use matchline.Ssm.Snapshot.Acyclic.{compile_snapshot-acyclic, compile_snapshot-closed}
use matchline.Ssm.Resolve.Statuses.{IsSettled}
use matchline.Ssm.Snapshot.Statuses.{compile_snapshot-IsSettled}
use matchline.Ssm.Snapshot.Boundaries.{has-compile_snapshot, compile_snapshot-shares}

loop_found : cycles_of looped ≡ (text "PNL" ∷ text "RIO" ∷ []) ∷ []
unfolding index_subjects group_claims collect_roots resolve_all break_cycle break_cycles
    compile_snapshot links_from climbs_on climb slice closed add_all search_from search_all
    find_cycles weakest_from weakest_member downgrade resolve_subject final_walk walk start_walk
    tier_turn single_turn fold_turn losers base_dependencies collect_dependencies index_candidates
    index_from add_candidate claim_pool hold_from with_suggestion compare_claims compare_provenance
    compare_source_ref compare_optional index_of tier_index compare_text fold_boundaries
    first_difference first_missing boundary_levels differs explicit_value lacking
loop_found = refl

brk_under_panel : parent_at (compile_snapshot looped).nodes (text "BRK") ≡ some (text "PNL")
unfolding index_subjects group_claims collect_roots resolve_all break_cycle break_cycles
    compile_snapshot links_from climbs_on climb slice closed add_all search_from search_all
    find_cycles weakest_from weakest_member downgrade resolve_subject final_walk walk start_walk
    tier_turn single_turn fold_turn losers base_dependencies collect_dependencies index_candidates
    index_from add_candidate claim_pool hold_from with_suggestion compare_claims compare_provenance
    compare_source_ref compare_optional index_of tier_index compare_text fold_boundaries
    first_difference first_missing boundary_levels differs explicit_value lacking
brk_under_panel = refl

compile_snapshot-acyclic_example :
    ReachesRoot (parent_at (compile_snapshot looped).nodes) (text "BRK")
compile_snapshot-acyclic_example = compile_snapshot-acyclic looped (text "BRK")

compile_snapshot-closed_example : has (compile_snapshot looped).nodes (text "PNL") ≡ true
compile_snapshot-closed_example =
    compile_snapshot-closed looped (text "BRK") (text "PNL") brk_under_panel

has-compile_snapshot_example :
    has (compile_snapshot looped).nodes (text "PMP")
    ≡ any (λ s. s.asset_id == text "PMP") looped.subjects
has-compile_snapshot_example = has-compile_snapshot looped (text "PMP")

abbrev breaker : CompileSubject
breaker = placed_in (text "BRK") (text "603")

abbrev breaker_node : ResolvedAssetNode
breaker_node = (resolve_subject breaker (context_of looped)).node

breaker_found : get (compile_snapshot looped).nodes (text "BRK") ≡ some breaker_node
unfolding index_subjects group_claims collect_roots resolve_all break_cycle break_cycles
    compile_snapshot links_from climbs_on climb slice closed add_all search_from search_all
    find_cycles weakest_from weakest_member downgrade resolve_subject final_walk walk start_walk
    tier_turn single_turn fold_turn losers base_dependencies collect_dependencies index_candidates
    index_from add_candidate claim_pool hold_from with_suggestion compare_claims compare_provenance
    compare_source_ref compare_optional index_of tier_index compare_text fold_boundaries
    first_difference first_missing boundary_levels differs explicit_value lacking
breaker_found = refl

breaker_parent : breaker_node.parent.parent_asset_id ≡ some (text "PNL")
unfolding index_subjects group_claims collect_roots resolve_all break_cycle break_cycles
    compile_snapshot links_from climbs_on climb slice closed add_all search_from search_all
    find_cycles weakest_from weakest_member downgrade resolve_subject final_walk walk start_walk
    tier_turn single_turn fold_turn losers base_dependencies collect_dependencies index_candidates
    index_from add_candidate claim_pool hold_from with_suggestion compare_claims compare_provenance
    compare_source_ref compare_optional index_of tier_index compare_text fold_boundaries
    first_difference first_missing boundary_levels differs explicit_value lacking
breaker_parent = refl

breaker_rung : breaker_node.parent.ladder_source ≡ some explicit_model
unfolding index_subjects group_claims collect_roots resolve_all break_cycle break_cycles
    compile_snapshot links_from climbs_on climb slice closed add_all search_from search_all
    find_cycles weakest_from weakest_member downgrade resolve_subject final_walk walk start_walk
    tier_turn single_turn fold_turn losers base_dependencies collect_dependencies index_candidates
    index_from add_candidate claim_pool hold_from with_suggestion compare_claims compare_provenance
    compare_source_ref compare_optional index_of tier_index compare_text fold_boundaries
    first_difference first_missing boundary_levels differs explicit_value lacking
breaker_rung = refl

breaker_known : get (subject_index looped) (text "BRK") ≡ some breaker
unfolding index_subjects group_claims collect_roots resolve_all break_cycle break_cycles
    compile_snapshot links_from climbs_on climb slice closed add_all search_from search_all
    find_cycles weakest_from weakest_member downgrade resolve_subject final_walk walk start_walk
    tier_turn single_turn fold_turn losers base_dependencies collect_dependencies index_candidates
    index_from add_candidate claim_pool hold_from with_suggestion compare_claims compare_provenance
    compare_source_ref compare_optional index_of tier_index compare_text fold_boundaries
    first_difference first_missing boundary_levels differs explicit_value lacking
breaker_known = refl

panel_known : get (subject_index looped) (text "PNL") ≡ some panel
unfolding index_subjects group_claims collect_roots resolve_all break_cycle break_cycles
    compile_snapshot links_from climbs_on climb slice closed add_all search_from search_all
    find_cycles weakest_from weakest_member downgrade resolve_subject final_walk walk start_walk
    tier_turn single_turn fold_turn losers base_dependencies collect_dependencies index_candidates
    index_from add_candidate claim_pool hold_from with_suggestion compare_claims compare_provenance
    compare_source_ref compare_optional index_of tier_index compare_text fold_boundaries
    first_difference first_missing boundary_levels differs explicit_value lacking
panel_known = refl

compile_snapshot-shares_example : All (SharesLevel breaker panel) (boundary_levels plant_levels)
compile_snapshot-shares_example =
    compile_snapshot-shares looped (text "BRK") (text "PNL") breaker_node breaker panel
      breaker_found breaker_parent (λ e. cc (breaker_rung, e)) breaker_known panel_known

compile_snapshot-IsSettled_example : IsSettled breaker_node.parent
compile_snapshot-IsSettled_example =
    compile_snapshot-IsSettled looped (text "BRK") breaker_node breaker_found

-- The same plant with a valve, which states no system and hangs on the panel: besides the cycle there is
-- its missing boundary.
abbrev gapped : CompileInput
gapped = record looped {
  subjects = valve ∷ looped.subjects;
  claims = record looped.claims {
    structural = claimed explicit_model (text "VLV") (text "PNL") ∷ looped.claims.structural;
  };
}

valve_item :
    (resolve_subject valve (context_of gapped)).review_items
    ≡ ReviewItem.missing_boundary (text "VLV") (text "system") ∷ []
unfolding index_subjects group_claims collect_roots resolve_all break_cycle break_cycles
    compile_snapshot links_from climbs_on climb slice closed add_all search_from search_all
    find_cycles weakest_from weakest_member downgrade resolve_subject final_walk walk start_walk
    tier_turn single_turn fold_turn losers base_dependencies collect_dependencies index_candidates
    index_from add_candidate claim_pool hold_from with_suggestion compare_claims compare_provenance
    compare_source_ref compare_optional index_of tier_index compare_text fold_boundaries
    first_difference first_missing boundary_levels differs explicit_value lacking
valve_item = refl

compile_snapshot-raised_example :
    All
      (λ i. Mem i (compile_snapshot gapped).review_items)
      (resolve_subject valve (context_of gapped)).review_items
    × All
        (λ cycle.
          Mem
            (ReviewItem.structural_cycle (sort compare_text cycle))
            (compile_snapshot gapped).review_items)
        (cycles_of gapped)
compile_snapshot-raised_example = compile_snapshot-raised gapped (text "VLV") valve refl
