-- ===== src/Ssm/Resolve.antt =====
-- packages/ssm-compiler/src/compile.ts, `resolveSubject`: the walk down the ladder. The local
-- variables of the function are the record `Walk`, and a `break` is `stop`.
pub mod Rungs
pub mod Turns
pub mod Endings
pub mod Decisions
pub mod Placement
pub mod Conservation
pub mod Sharing
pub mod Demotions
pub mod Statuses
use matchline.Base.{
  ℕ, Bool, true, false, not, List, [], ◌∷◌, ◌++◌, map, Option, none, some, if◌then◌else◌, ◌==◌,
  nat_beq, Text, text_eq, compare_text, Map, get, put_new, keys, values, keep_if, sort, add,
  includes, length,
}
use matchline.Domain.Ladder.{LadderSourceKind, manual, ParentLadderConfig, source_eq}
use matchline.Domain.Claim.{SsmRelationshipClaim, Provenance, RelationshipType, relationship_name}
use matchline.Domain.Review.{ReviewItem, ambiguous_parent, missing_boundary}
use matchline.Domain.Snapshot.{
  ParentDemotion, Status, resolved, root, unresolved, ParentDecision, ResolvedDependency,
  ResolvedAssetNode,
}
use matchline.Ssm.Order.{compare_dependencies}
use matchline.Ssm.Fold.{
  CompileSubject, FoldOutcome, keep, demote, missing, fold_boundaries, level_path_of,
}
use matchline.Ssm.Ladder.{
  boundary_demotion_rule, dependency_key, status_for_policy, WalkContext, claim_pool, Held,
  hold_from, Candidates, index_candidates, base_dependencies,
}

-- `winningSource`, `winningClaim` and `parentAssetId` are set together: `winner` holds them, with
-- the parent that the rung named. `demoted_parents` is a set, listed.
pub record Winner : Type 0 where
  pub parent_id : Text
  pub source : LadderSourceKind
  pub held : Held

pub record Walk : Type 0 where
  pub status : Status
  pub winner : Option Winner
  pub first_demotion : Option ParentDemotion
  pub demoted_parents : List Text
  pub dependencies : Map Text ResolvedDependency
  pub review_items : List ReviewItem

pub data Turn : Type 0 where
  next stop : Walk → Turn

-- `if (firstDemotion === undefined) firstDemotion = …`
abbrev pub first_of : Option ParentDemotion → ParentDemotion → Option ParentDemotion
first_of none demotion = some demotion
first_of (some earlier) demotion = some earlier

abbrev pub demotion_dependency : Text → SsmRelationshipClaim → ResolvedDependency
demotion_dependency parent_id claim = record {
  parent_asset_id = parent_id;
  relationship_type = RelationshipType.dependency;
  provenance = record claim.provenance { rule = some boundary_demotion_rule };
}

abbrev pub missing_items : Text → List Text → List ReviewItem
missing_items level_id missing_on = map (λ asset_id. missing_boundary asset_id level_id) missing_on

abbrev pub settle : LadderSourceKind → Text → Held → Walk → Walk
settle tier parent_id held w = record w {
  status = resolved;
  winner = some (record { parent_id = parent_id; source = tier; held = held });
}

-- What the walk does with the fold's outcome.
unfoldable pub fold_turn : LadderSourceKind → Text → Held → FoldOutcome → Walk → Turn
fold_turn tier parent_id held keep w = stop (settle tier parent_id held w)
fold_turn tier parent_id held (demote level_id) w = next (record w {
  first_demotion =
      first_of w.first_demotion
        (record { parent_asset_id = parent_id; boundary_level_id = level_id });
  demoted_parents = add w.demoted_parents parent_id;
  dependencies =
      put_new w.dependencies (dependency_key parent_id RelationshipType.dependency)
        (demotion_dependency parent_id held.claim);
})
fold_turn tier parent_id held (missing level_id policy missing_on) w = stop (record w {
  status = status_for_policy policy;
  review_items = w.review_items ++ missing_items level_id missing_on;
})

module _ (ctx : WalkContext) (subject : CompileSubject) where
  -- A rung that names one parent.
  unfoldable pub single_turn : LadderSourceKind → Text → Held → Walk → Turn
  unfolding fold_turn
  single_turn tier parent_id held w =
      if tier == manual
      then stop (settle tier parent_id held w)
      else (elim (get ctx.subject_by_id parent_id) [
        | none ↦ next w
        | some parent_subject ↦
            fold_turn tier parent_id held (fold_boundaries subject parent_subject ctx.hierarchy) w
      ])

  -- The body of the loop over the rungs.
  unfoldable pub tier_turn : LadderSourceKind → Option (Map Text Held) → Walk → Turn
  unfolding single_turn
  tier_turn tier none w = next w
  tier_turn tier (some []) w = next w
  tier_turn tier (some ((parent_id, held) ∷ [])) w = single_turn tier parent_id held w
  tier_turn tier (some (a ∷ b ∷ more)) w = stop (record w {
    review_items =
        w.review_items
        ++ ambiguous_parent subject.asset_id tier (sort compare_text (keys (a ∷ b ∷ more))) ∷ [];
    status = unresolved;
  })

  unfoldable pub walk : Candidates → List LadderSourceKind → Walk → Walk
  unfolding tier_turn
  walk by_tier [] w = w
  walk by_tier (tier ∷ tiers) w = elim (tier_turn tier (get by_tier tier) w) [
    | stop w' ↦ w'
    | next w' ↦ walk by_tier tiers w'
  ]

  unfoldable pub start_walk : Walk
  start_walk = record {
    status = root;
    winner = none;
    first_demotion = none;
    demoted_parents = [];
    dependencies = base_dependencies subject ctx;
    review_items = [];
  }

  abbrev pub held_pool : List Held
  held_pool = hold_from 0 (claim_pool subject ctx)

  -- The walk that `resolveSubject` ends with; a manual make-root skips the ladder.
  unfoldable pub final_walk : Walk
  unfolding walk start_walk
  final_walk =
      if includes ctx.make_root_ids subject.asset_id
      then start_walk
      else walk (index_candidates held_pool ctx) ctx.ladder.tiers start_walk

-- `pool.filter((claim) => claim !== winningClaim)`
unfoldable pub losers : Option Winner → List Held → List SsmRelationshipClaim
losers none pool = map (λ h. h.claim) pool
losers (some winner) pool =
    map (λ h. h.claim) (keep_if (λ h. not (nat_beq h.place winner.held.place)) pool)

abbrev pub decision_of : Walk → ParentDecision
decision_of w = elim w.winner [
  | none ↦ record {
    parent_asset_id = none;
    ladder_source = none;
    winning_claim = none;
    demoted_from = w.first_demotion;
    status = w.status;
  }
  | some winner ↦ record {
    parent_asset_id = some winner.parent_id;
    ladder_source = some winner.source;
    winning_claim = some winner.held.claim;
    demoted_from = w.first_demotion;
    status = w.status;
  }
]

pub record SubjectResolution : Type 0 where
  pub node : ResolvedAssetNode
  pub review_items : List ReviewItem
  pub demotion_count : ℕ

-- What `resolveSubject` returns for the variables of a finished walk.
abbrev pub resolution_of : CompileSubject → WalkContext → Walk → SubjectResolution
resolution_of subject ctx w = record {
  node = record {
    asset_id = subject.asset_id;
    parent = decision_of w;
    dependencies = sort compare_dependencies (values w.dependencies);
    level_path = level_path_of subject ctx.hierarchy;
    losing_claims = losers w.winner (held_pool ctx subject);
  };
  review_items = w.review_items;
  demotion_count = length w.demoted_parents;
}

unfoldable pub resolve_subject : CompileSubject → WalkContext → SubjectResolution
resolve_subject subject ctx = resolution_of subject ctx (final_walk ctx subject)
