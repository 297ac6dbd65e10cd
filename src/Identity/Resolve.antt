-- ===== src/Identity/Resolve.antt =====
-- packages/identity/src/resolve.ts: the ladder of the tiers, and batches of tags.
use matchline.Base.{
  ℕ, Bool, List, [], ◌∷◌, ◌++◌, map, Option, none, some, if◌then◌else◌, leb, Ordering, compare,
  then_by, Text, text, text_eq, compare_text, take, any, includes, sort,
}
use matchline.Domain.Identity.{
  MatchingTier, IdentityTier, matching, fuzzy_proposal, identity_tier_order, tier_beq,
  IdentityCandidate, IdentityOutcome, matched, unmatched,
}
use matchline.Domain.Review.{ReviewItem, fuzzy_identity, ambiguous_suffix, unresolvable_alias}
use matchline.Identity.Distance.{bounded_distance}
use matchline.Identity.Build.{IdentityAsset, IdentityIndex}
use matchline.Identity.Tiers.{TierResult, missed, hit, refused, dead_alias, run_tier}

abbrev pub fuzzy_candidate_limit : ℕ
fuzzy_candidate_limit = 3

-- Distance, then canonical tag, then asset id.
pub record Scored : Type 0 where
  pub entry : IdentityAsset
  pub distance : ℕ

abbrev pub compare_scored : Scored → Scored → Ordering
compare_scored left right = then_by (compare left.distance right.distance) (
    then_by (compare_text left.entry.canonical_tag right.entry.canonical_tag)
      (compare_text left.entry.asset_id right.entry.asset_id))

abbrev kept_score : Text → ℕ → ℕ → IdentityAsset → List Scored → List Scored
kept_score evidence_tag max distance entry scored =
    if leb distance max then record { entry = entry; distance = distance } ∷ scored else scored

unfoldable pub scored_within : Text → ℕ → List IdentityAsset → List Scored
unfolding bounded_distance
scored_within evidence_tag max [] = []
scored_within evidence_tag max (entry ∷ entries) =
    kept_score evidence_tag max (bounded_distance evidence_tag entry.canonical_tag max) entry
      (scored_within evidence_tag max entries)

pub record Resolution : Type 0 where
  pub outcome : IdentityOutcome
  pub review_items : List ReviewItem

-- A refusal, or nothing at all, has no candidates.
abbrev pub without_match : Text → List ReviewItem → Resolution
without_match evidence_tag items = record {
  outcome = unmatched evidence_tag [];
  review_items = items;
}

abbrev pub proposed : Text → List IdentityCandidate → Resolution
proposed evidence_tag [] = without_match evidence_tag []
proposed evidence_tag (c ∷ candidates) = record {
  outcome = unmatched evidence_tag (c ∷ candidates);
  review_items =
      fuzzy_identity evidence_tag (
        map (λ (x : IdentityCandidate). record { asset_id = x.asset_id; distance = x.distance })
          (c ∷ candidates))
      ∷ [];
}

-- The loop over the items of one tag; `seen` has the kinds of items and their tags.
abbrev pub item_kind : ReviewItem → Text
item_kind (fuzzy_identity evidence_tag candidates) = text "fuzzy-identity"
item_kind (ambiguous_suffix evidence_tag ids) = text "ambiguous-suffix"
item_kind item = text "unresolvable-alias"

pub record Batch : Type 0 where
  pub outcomes : List IdentityOutcome
  pub review_items : List ReviewItem
  pub seen : List Text

unfoldable pub raise_items : Text → List ReviewItem → Batch → Batch
raise_items tag [] b = b
raise_items tag (item ∷ items) b = raise_items tag items (
    if includes b.seen (item_kind item ++ 0 ∷ tag) then b else record b {
      review_items = b.review_items ++ item ∷ [];
      seen = b.seen ++ (item_kind item ++ 0 ∷ tag) ∷ [];
    })

module _ (to_upper_case : Text → Text) (index : IdentityIndex) where
  unfoldable pub fuzzy_candidates : Text → List IdentityCandidate
  unfolding scored_within compare_text
  fuzzy_candidates evidence_tag =
      map (λ (s : Scored). record { asset_id = s.entry.asset_id; distance = s.distance })
        (take fuzzy_candidate_limit
          (sort compare_scored (scored_within evidence_tag index.fuzzy_max_distance index.assets)))

  -- What a tier's result makes of the tag; `none` goes on to the next tier.
  abbrev pub settled_by : Text → MatchingTier → TierResult → Option Resolution
  settled_by evidence_tag tier missed = none
  settled_by evidence_tag tier (hit asset_id) =
      some (record { outcome = matched evidence_tag asset_id (matching tier); review_items = [] })
  settled_by evidence_tag tier (refused ids) =
      some (without_match evidence_tag (ambiguous_suffix evidence_tag ids ∷ []))
  settled_by evidence_tag tier (dead_alias alias_target) =
      some (without_match evidence_tag (unresolvable_alias evidence_tag alias_target ∷ []))

  -- A tier that is enabled; the fuzzy tier is the last word in any case.
  abbrev pub tier_says : Text → IdentityTier → Option Resolution
  tier_says evidence_tag fuzzy_proposal =
      some (proposed evidence_tag (fuzzy_candidates evidence_tag))
  tier_says evidence_tag (matching tier) =
      settled_by evidence_tag tier (run_tier to_upper_case index evidence_tag tier)

  abbrev pub is_enabled : IdentityTier → Bool
  is_enabled tier = any (tier_beq tier) index.enabled_tiers

  unfoldable pub ladder_from : Text → List IdentityTier → Resolution
  unfolding run_tier fuzzy_candidates
  ladder_from evidence_tag [] = without_match evidence_tag []
  ladder_from evidence_tag (tier ∷ tiers) =
      elim (if is_enabled tier then tier_says evidence_tag tier else none) [
        | none ↦ ladder_from evidence_tag tiers
        | some resolution ↦ resolution
      ]

  unfoldable pub resolve_one : Text → Resolution
  unfolding ladder_from
  resolve_one [] = without_match [] []
  resolve_one (c ∷ s) = ladder_from (c ∷ s) identity_tier_order

  abbrev pub resolve_tag : Text → IdentityOutcome
  resolve_tag evidence_tag = (resolve_one evidence_tag).outcome

  unfoldable pub resolve_from : List Text → Batch → Batch
  unfolding resolve_one raise_items
  resolve_from [] b = b
  resolve_from (tag ∷ tags) b = resolve_from tags (
      raise_items tag (resolve_one tag).review_items
        (record b { outcomes = b.outcomes ++ (resolve_one tag).outcome ∷ [] }))

  unfoldable pub resolve_tags : List Text → Batch
  unfolding resolve_from
  resolve_tags tags = resolve_from tags (record { outcomes = []; review_items = []; seen = [] })
