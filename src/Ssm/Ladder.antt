-- ===== src/Ssm/Ladder.antt =====
-- packages/ssm-compiler/src/compile.ts, from the key helpers to `resolveSubject`: the parent ladder
-- of one asset. `claim !== winningClaim` compares objects: an entry of the pool is told apart by its
-- place in the sorted pool, so each entry is taken to be an object of its own.
pub mod Candidates
pub mod Names
pub mod Keys
use matchline.Base.{
  ℕ, zero, suc, Bool, true, false, not, ◌&&◌, ◌||◌, List, [], ◌∷◌, ◌++◌, map, Option, none, some,
  if◌then◌else◌, ◌==◌, nat_beq, Text, text, text_eq, compare_text, Map, get, has, put, put_new,
  keys, values, keep_if, any, sort, add, includes, length,
}
use matchline.Domain.Ladder.{
  LadderSourceKind, manual, model_tree, ParentLadderConfig, HierarchyConfig, source_eq,
  ladder_source_order, MissingValuePolicy, unassigned_group, review, provisional_root,
}
use matchline.Domain.Claim.{
  SsmRelationshipClaim, Provenance, structural_parent, RelationshipType, relationship_name,
  model_object,
}
use matchline.Domain.Review.{ReviewItem, ambiguous_parent, missing_boundary}
use matchline.Domain.Snapshot.{
  ParentDemotion, Status, resolved, root, unresolved, ParentDecision, ResolvedDependency,
  ResolvedAssetNode,
}
use matchline.Relate.Mapping.{evidence_tier_of, kind_of, relationship_type_of, rule_of, ladder_rung}
use matchline.Ssm.Order.{compare_claims, compare_dependencies}
use matchline.Ssm.Fold.{
  CompileSubject, FoldOutcome, keep, demote, missing, fold_boundaries, level_path_of,
}

abbrev pub default_ladder : ParentLadderConfig
default_ladder = record { tiers = ladder_source_order }

abbrev pub boundary_demotion_rule : Text
boundary_demotion_rule = text "ssm.boundaryDemotion"

abbrev model_tree_source_file : Text
model_tree_source_file = text "extraction-cache"

-- The parts are joined by NUL.
abbrev pub dependency_key : Text → RelationshipType → Text
dependency_key parent_asset_id relationship_type =
    parent_asset_id ++ zero ∷ relationship_name relationship_type

abbrev pub status_for_policy : MissingValuePolicy → Status
status_for_policy review = unresolved
status_for_policy provisional_root = Status.provisional_root
status_for_policy unassigned_group = root

abbrev pub model_tree_claim : Text → Text → SsmRelationshipClaim
model_tree_claim child_asset_id parent_asset_id = record {
  subject_asset_id = child_asset_id;
  target_asset_id = parent_asset_id;
  kind = structural_parent;
  relationship_type = relationship_type_of model_tree;
  source = kind_of model_tree;
  rule = rule_of model_tree;
  evidence_tier = evidence_tier_of model_tree;
  ladder_source = model_tree;
  provenance = record {
    source_file = model_tree_source_file;
    source_ref = model_object child_asset_id;
    property_or_column = none;
    rule = some (rule_of model_tree);
    fallback_rung = some (ladder_rung model_tree);
    manual_decision = none;
    input_revision = none;
    profile_revision = none;
  };
}

-- `makeRootIds` is a set, listed.
pub record WalkContext : Type 0 where
  pub subject_by_id : Map Text CompileSubject
  pub ladder : ParentLadderConfig
  pub hierarchy : HierarchyConfig
  pub structural_by_subject : Map Text (List SsmRelationshipClaim)
  pub dependencies_by_subject : Map Text (List SsmRelationshipClaim)
  pub make_root_ids : List Text

-- `map.get(key) ?? []`
abbrev pub listed : Option (List SsmRelationshipClaim) → List SsmRelationshipClaim
listed none = []
listed (some claims) = claims

-- The model tree's suggestion joins the pool, unless it is blank, the asset itself, or already
-- claimed on its own rung.
unfoldable pub with_suggestion :
    Text → Option Text → List SsmRelationshipClaim → List SsmRelationshipClaim
with_suggestion asset_id none assembled = assembled
with_suggestion asset_id (some suggested) assembled =
    if suggested == []
      || suggested == asset_id
      || any (λ c. c.ladder_source == model_tree && c.target_asset_id == suggested) assembled
    then assembled
    else assembled ++ model_tree_claim asset_id suggested ∷ []

unfoldable pub claim_pool : CompileSubject → WalkContext → List SsmRelationshipClaim
unfolding with_suggestion
claim_pool subject ctx = sort (compare_claims ctx.ladder) (
    with_suggestion subject.asset_id subject.model_tree_parent_id
      (listed (get ctx.structural_by_subject subject.asset_id)))

-- A claim object, told from the others of its pool by its place.
pub record Held : Type 0 where
  pub place : ℕ
  pub claim : SsmRelationshipClaim

unfoldable pub hold_from : ℕ → List SsmRelationshipClaim → List Held
hold_from n [] = []
hold_from n (c ∷ cs) = record { place = n; claim = c } ∷ hold_from (suc n) cs

abbrev pub Candidates : Type 0
Candidates = Map LadderSourceKind (Map Text Held)

-- One rung's candidates after a claim: a new map, or the old one, where a parent that is there
-- keeps its first claim.
abbrev pub grown : Option (Map Text Held) → Held → Map Text Held
grown none h = (h.claim.target_asset_id, h) ∷ []
grown (some existing) h = put_new existing h.claim.target_asset_id h

-- The body of the loop in `indexCandidates`.
unfoldable pub add_candidate : WalkContext → Candidates → Held → Candidates
add_candidate ctx by_tier h =
    if has ctx.subject_by_id h.claim.target_asset_id
    then put by_tier h.claim.ladder_source (grown (get by_tier h.claim.ladder_source) h)
    else by_tier

unfoldable pub index_from : WalkContext → Candidates → List Held → Candidates
unfolding add_candidate
index_from ctx by_tier [] = by_tier
index_from ctx by_tier (h ∷ hs) = index_from ctx (add_candidate ctx by_tier h) hs

unfoldable pub index_candidates : List Held → WalkContext → Candidates
unfolding index_from
index_candidates pool ctx = index_from ctx [] pool

-- The loop of `baseDependencies`.
unfoldable pub collect_dependencies :
    Map Text ResolvedDependency → List SsmRelationshipClaim → Map Text ResolvedDependency
collect_dependencies m [] = m
collect_dependencies m (c ∷ cs) =
    collect_dependencies
      (put_new m (dependency_key c.target_asset_id c.relationship_type) (record {
        parent_asset_id = c.target_asset_id;
        relationship_type = c.relationship_type;
        provenance = c.provenance;
      }))
      cs

unfoldable pub base_dependencies : CompileSubject → WalkContext → Map Text ResolvedDependency
unfolding collect_dependencies
base_dependencies subject ctx =
    collect_dependencies []
      (sort (compare_claims ctx.ladder) (listed (get ctx.dependencies_by_subject subject.asset_id)))
