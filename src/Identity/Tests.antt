-- ===== src/Identity/Tests.antt =====
-- packages/identity: a few assets, runs of the resolution, and instances of the theorems.
use matchline.Base.{
  ◌≡◌, ◌↔◌, refl, List, [], ◌∷◌, map, none, Text, text, text_eq, includes, IsDistinct, All, First,
  compare_text, true,
}
use matchline.Domain.Identity.{exact, suffix_unambiguous, matching, identity_tier_order, matched}
use matchline.Identity.Boundary.{boundary_cuts, cuts_from, cut_by}
use matchline.Identity.Normalize.{normalize_tag}
use matchline.Identity.Distance.{bounded_distance, rows_from, cells_from, min3, substitution_cost}
use matchline.Identity.Distance.Levenshtein.{levenshtein}
use matchline.Identity.Distance.Bounded.{IsBounded, bounded_distance-IsBounded}
use matchline.Identity.Build.{
  IdentityAsset, IdentityConfig, IdentityIndex, push_under, push_cuts, index_all, tagged,
  build_identity_index,
}
use matchline.Identity.Tiers.{
  choose_candidate, unique_from, tags_from, find_all, find_cuts, run_tier,
}
use matchline.Identity.Resolve.{
  resolve_tag, resolve_tags, resolve_one, ladder_from, resolve_from, raise_items, fuzzy_candidates,
  scored_within,
}
use matchline.Identity.Ladder.{Decides, Finds, resolve_tag-matched_iff}
use matchline.Identity.Kinds.{identity}
use matchline.Identity.Batch.{IsOfTag, resolve_tags-outcomes}
use matchline.Identity.Universe.{ids, resolve_tag-known}
use matchline.Identity.OwnTag.{carries, resolve_tag-own}

abbrev asset : Text → Text → IdentityAsset
asset asset_id canonical_tag = record { asset_id = asset_id; canonical_tag = canonical_tag }

abbrev fans : List IdentityAsset
fans =
    asset (text "A1") (text "MAH001-10")
    ∷ asset (text "A2") []
    ∷ asset (text "A3") (text "MAH002-10")
    ∷ []

abbrev untaught : IdentityConfig
untaught = record {
  tag_normalization = [];
  aliases = [];
  anatomy = none;
  enabled_tiers = none;
  fuzzy_max_distance = none;
}

-- ASCII letters are enough for the spellings below, which are in upper case.
abbrev as_is : Text → Text
as_is s = s

abbrev fan_index : IdentityIndex
fan_index = build_identity_index as_is untaught fans

spare_by_suffix :
    resolve_tag as_is fan_index (text "MAH001-10-SPARE")
    ≡ matched (text "MAH001-10-SPARE") (text "A1") (matching suffix_unambiguous)
unfolding build_identity_index index_all push_under push_cuts boundary_cuts cuts_from cut_by
    normalize_tag resolve_one ladder_from run_tier choose_candidate unique_from tags_from find_all
    find_cuts compare_text
spare_by_suffix = refl

resolve_tag-matched_iff_example :
    (resolve_tag as_is fan_index (text "MAH001-10-SPARE")
      ≡ matched (text "MAH001-10-SPARE") (text "A1") (matching suffix_unambiguous))
    ↔ (First
          (Decides as_is fan_index (text "MAH001-10-SPARE"))
          identity_tier_order
          (matching suffix_unambiguous)
        × Finds as_is fan_index (text "MAH001-10-SPARE") (matching suffix_unambiguous) (text "A1"))
resolve_tag-matched_iff_example =
    resolve_tag-matched_iff as_is fan_index (text "MAH001-10-SPARE") (text "A1")
      (matching suffix_unambiguous) (λ e. cc)

resolve_tag-known_example : includes (ids (tagged fans)) (text "A1") ≡ true
resolve_tag-known_example =
    resolve_tag-known as_is untaught fans (text "MAH001-10-SPARE") (text "A1")
      (matching suffix_unambiguous) spare_by_suffix

resolve_tag-own_example :
    (a : Text) × (resolve_tag as_is fan_index (text "MAH002-10")
      ≡ matched (text "MAH002-10") a (matching exact))
    × (carries fans (text "MAH002-10") a ≡ true)
resolve_tag-own_example = resolve_tag-own as_is untaught fans (text "MAH002-10") refl (λ e. cc) refl

-- The same tag twice, which is one edit away from two others.
abbrev twice : List Text
twice = text "MAH003-10" ∷ text "MAH003-10" ∷ []

one_item_for_two :
    map identity (resolve_tags as_is fan_index twice).review_items ≡ (0 ∷ text "MAH003-10") ∷ []
unfolding build_identity_index index_all push_under push_cuts boundary_cuts cuts_from cut_by
    normalize_tag resolve_tags resolve_from raise_items resolve_one ladder_from run_tier
    choose_candidate unique_from tags_from find_all find_cuts compare_text fuzzy_candidates
    scored_within bounded_distance rows_from cells_from min3 substitution_cost
one_item_for_two = refl

resolve_tags-outcomes_example :
    ((resolve_tags as_is fan_index twice).outcomes ≡ map (resolve_tag as_is fan_index) twice)
    × IsDistinct (map identity (resolve_tags as_is fan_index twice).review_items)
    × All
        (λ tag.
          All
            (λ i.
              includes (map identity (resolve_tags as_is fan_index twice).review_items) (identity i)
              ≡ true)
            (resolve_one as_is fan_index tag).review_items)
        twice
    × All (IsOfTag as_is fan_index twice) (resolve_tags as_is fan_index twice).review_items
resolve_tags-outcomes_example = resolve_tags-outcomes as_is fan_index twice

-- The two are four edits apart: the result is more than the bound 2, and it is not 3.
far_apart : bounded_distance (text "abZW") (text "XYab") 2 ≡ 4
unfolding bounded_distance rows_from cells_from min3 substitution_cost
far_apart = refl

bounded_distance-IsBounded_example :
    IsBounded 2
      (levenshtein (text "MAH001") (text "MHA001"))
      (bounded_distance (text "MAH001") (text "MHA001") 2)
bounded_distance-IsBounded_example = bounded_distance-IsBounded (text "MAH001") (text "MHA001") 2
