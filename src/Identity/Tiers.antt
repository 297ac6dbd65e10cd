-- ===== src/Identity/Tiers.antt =====
-- packages/identity/src/resolve.ts: the tiers that can match. What a match says to a reviewer is left out.
use matchline.Base.{
  not, List, [], ◌∷◌, map, Option, none, some, if◌then◌else◌, ltb, ◌==◌, nat_beq, Text, text_eq,
  compare_text, length, keep_if, add, sort, Map, get, put_new, values,
}
use matchline.Domain.Identity.{
  MatchingTier, exact, normalized, by_alias, by_anatomy, suffix_unambiguous,
}
use matchline.Identity.Normalize.{normalize_tag}
use matchline.Identity.Boundary.{BoundaryCut, boundary_cuts}
use matchline.Identity.AnatomyKey.{anatomy_identity_key}
use matchline.Identity.Build.{IdentityAsset, BoundaryPrefixEntry, IdentityIndex, listed_under}

pub data TierResult : Type 0 where
  missed : TierResult
  hit : (asset_id : Text) → TierResult
  refused : (candidate_asset_ids : List Text) → TierResult
  dead_alias : (alias_target : Text) → TierResult

-- `unique`: the first entry of each asset.
unfoldable pub unique_from : Map Text IdentityAsset → List IdentityAsset → Map Text IdentityAsset
unique_from unique [] = unique
unique_from unique (entry ∷ entries) = unique_from (put_new unique entry.asset_id entry) entries

abbrev pub ids_of : List IdentityAsset → List Text
ids_of = map (λ candidate. candidate.asset_id)

-- `new Set(candidates.map((candidate) => candidate.canonicalTag))`
unfoldable pub tags_from : List Text → List IdentityAsset → List Text
tags_from tags [] = tags
tags_from tags (candidate ∷ candidates) = tags_from (add tags candidate.canonical_tag) candidates

abbrev pub first_hit : List Text → TierResult
first_hit [] = missed
first_hit (asset_id ∷ ids) = hit asset_id

-- `chooseCandidate`, and what `decide` makes of it.
abbrev pub decided : List IdentityAsset → TierResult
decided [] = missed
decided (c ∷ candidates) =
    if ltb 1 (length (tags_from [] (c ∷ candidates)))
    then refused (sort compare_text (ids_of (c ∷ candidates)))
    else first_hit (sort compare_text (ids_of (c ∷ candidates)))

unfoldable pub choose_candidate : List IdentityAsset → TierResult
unfolding unique_from tags_from
choose_candidate entries = decided (values (unique_from [] entries))

module _ (to_upper_case : Text → Text) (index : IdentityIndex) where
  abbrev pub exact_tier : Text → TierResult
  exact_tier evidence_tag = choose_candidate (listed_under (get index.by_exact_tag evidence_tag))

  abbrev pub normalized_tier : Text → TierResult
  normalized_tier evidence_tag = choose_candidate (
      listed_under (
        get index.by_normalized_tag
          (normalize_tag to_upper_case evidence_tag index.config.tag_normalization)))

  abbrev pub named_by : Text → List IdentityAsset → TierResult
  named_by canonical [] = dead_alias canonical
  named_by canonical (e ∷ entries) = choose_candidate (e ∷ entries)

  abbrev pub alias_tier : Text → TierResult
  alias_tier evidence_tag = elim (get index.config.aliases evidence_tag) [
    | none ↦ missed
    | some canonical ↦ named_by canonical (listed_under (get index.by_exact_tag canonical))
  ]

  abbrev pub decomposed : Text → Option Text → TierResult
  decomposed evidence_tag none = missed
  decomposed evidence_tag (some key) = choose_candidate (
      keep_if (λ entry. not (entry.canonical_tag == evidence_tag))
        (listed_under (get index.by_anatomy_key key)))

  abbrev pub anatomy_tier : Text → TierResult
  anatomy_tier evidence_tag = elim index.config.anatomy [
    | none ↦ missed
    | some anatomy ↦
        if nat_beq (length index.by_anatomy_key) 0
        then missed
        else decomposed evidence_tag (anatomy_identity_key anatomy evidence_tag)
  ]

  -- `if (!found.has(entry.assetId)) found.set(entry.assetId, …)`
  unfoldable pub find_all : List IdentityAsset → Map Text IdentityAsset → Map Text IdentityAsset
  find_all [] found = found
  find_all (entry ∷ entries) found = find_all entries (put_new found entry.asset_id entry)

  -- The canonical tags that the evidence tag extends.
  unfoldable pub find_cuts : List BoundaryCut → Map Text IdentityAsset → Map Text IdentityAsset
  unfolding find_all
  find_cuts [] found = found
  find_cuts (cut ∷ cuts) found =
      find_cuts cuts (find_all (listed_under (get index.by_exact_tag cut.prefix)) found)

  abbrev pub suffix_tier : Text → TierResult
  suffix_tier evidence_tag = choose_candidate (
      values (
        find_all
          (map (λ (b : BoundaryPrefixEntry). b.entry)
            (listed_under (get index.by_boundary_prefix evidence_tag)))
          (find_cuts (boundary_cuts evidence_tag index.separators) [])))

  unfoldable pub run_tier : Text → MatchingTier → TierResult
  unfolding choose_candidate find_cuts
  run_tier evidence_tag exact = exact_tier evidence_tag
  run_tier evidence_tag normalized = normalized_tier evidence_tag
  run_tier evidence_tag by_alias = alias_tier evidence_tag
  run_tier evidence_tag by_anatomy = anatomy_tier evidence_tag
  run_tier evidence_tag suffix_unambiguous = suffix_tier evidence_tag
