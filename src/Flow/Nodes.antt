-- ===== src/Flow/Nodes.antt =====
-- packages/electrical-flow/src/build.ts, `collectAppearances` and `buildNodeDrafts`.
use matchline.Base.{
  ℕ, Bool, true, false, ◌&&◌, ◌||◌, List, [], ◌∷◌, ◌++◌, Option, none, some, if◌then◌else◌, ltb,
  nat_beq, Ordering, Text, text, text_eq, compare_text, add, Map, get, put, keys,
}
use matchline.Domain.Connectivity.{EdgeKind, feed, pmd_relation, ConnectivityObservation}
use matchline.Domain.Identity.{IdentityTier, tier_number, IdentityOutcome, matched, unmatched}
use matchline.Flow.Types.{FlowMatchStatus, model_confirmed, flow_only, pmd_only, FlowIdentity}

pub record TagAppearance : Type 0 where
  pub in_feed : Bool
  pub in_pmd : Bool

abbrev pub or_unseen : Option TagAppearance → TagAppearance
or_unseen none = record { in_feed = false; in_pmd = false }
or_unseen (some existing) = existing

abbrev pub seen_in : EdgeKind → TagAppearance → TagAppearance
seen_in feed existing = record existing { in_feed = true }
seen_in pmd_relation existing = record existing { in_pmd = true }

-- `note(tag, kind)`
abbrev pub note_tag : Map Text TagAppearance → Text → EdgeKind → Map Text TagAppearance
note_tag appearances tag kind = put appearances tag (seen_in kind (or_unseen (get appearances tag)))

unfoldable pub appearances_from :
    Map Text TagAppearance → List ConnectivityObservation → Map Text TagAppearance
appearances_from appearances [] = appearances
appearances_from appearances (o ∷ observations) =
    appearances_from (note_tag (note_tag appearances o.from_tag o.kind) o.to_tag o.kind)
      observations

unfoldable pub collect_appearances : List ConnectivityObservation → Map Text TagAppearance
unfolding appearances_from
collect_appearances observations = appearances_from [] observations

abbrev pub unmatched_status : Option TagAppearance → FlowMatchStatus
unmatched_status none = pmd_only
unmatched_status (some appearance) = if appearance.in_feed then flow_only else pmd_only

pub record NodeDraft : Type 0 where
  pub node_id : Text
  pub evidence_tags : List Text
  pub match_status : FlowMatchStatus
  pub display_tag : Text
  pub display_rank : ℕ
  pub asset_id : Option Text
  pub identity_tier : Option IdentityTier

-- `Number.MAX_SAFE_INTEGER`
abbrev pub unmatched_rank : ℕ
unmatched_rank = 9007199254740991

abbrev pub source_only_node_prefix : Text
source_only_node_prefix = text "tag:"

-- The asset and the tier of a tag that identity could place.
abbrev pub placed_by : Option IdentityOutcome → Option (Text × IdentityTier)
placed_by none = none
placed_by (some (matched evidence_tag asset_id tier)) = some (asset_id, tier)
placed_by (some (unmatched evidence_tag candidates)) = none

abbrev pub node_id_of : Text → Option (Text × IdentityTier) → Text
node_id_of tag none = source_only_node_prefix ++ tag
node_id_of tag (some (asset_id, tier)) = asset_id

abbrev pub rank_in : Option (Text × IdentityTier) → ℕ
rank_in none = unmatched_rank
rank_in (some (asset_id, tier)) = tier_number tier

abbrev pub stronger_tier : IdentityTier → Option IdentityTier → Option IdentityTier
stronger_tier tier none = some tier
stronger_tier tier (some existing) =
    if ltb (tier_number tier) (tier_number existing) then some tier else some existing

abbrev confirmed : Text → Option Text → NodeDraft → NodeDraft
confirmed asset_id none draft = record draft {
  asset_id = some asset_id;
  match_status = model_confirmed;
}
confirmed asset_id (some existing) draft = draft

-- A spelling that identity placed joins a draft.
abbrev pub joined_by : Option (Text × IdentityTier) → NodeDraft → NodeDraft
joined_by none draft = draft
joined_by (some (asset_id, tier)) draft =
    confirmed asset_id draft.asset_id
      (record draft { identity_tier = stronger_tier tier draft.identity_tier })

abbrev pub is_lt : Ordering → Bool
is_lt Ordering.lt = true
is_lt Ordering.eq = false
is_lt Ordering.gt = false

-- The spelling that is shown is the one of the strongest tier, then the least.
abbrev pub displayed : Text → ℕ → NodeDraft → NodeDraft
displayed tag rank draft =
    if ltb rank draft.display_rank
      || (nat_beq rank draft.display_rank && is_lt (compare_text tag draft.display_tag))
    then record draft { display_rank = rank; display_tag = tag }
    else draft

abbrev tier_of : Option (Text × IdentityTier) → Option IdentityTier
tier_of none = none
tier_of (some (asset_id, tier)) = some tier

abbrev asset_of : Option (Text × IdentityTier) → Option Text
asset_of none = none
asset_of (some (asset_id, tier)) = some asset_id

abbrev status_of : Option (Text × IdentityTier) → Option TagAppearance → FlowMatchStatus
status_of none appearance = unmatched_status appearance
status_of (some placed) appearance = model_confirmed

-- The draft of a node for one of its spellings.
abbrev pub drafted :
    Text → Option (Text × IdentityTier) → Option TagAppearance → Option NodeDraft → NodeDraft
drafted tag placed appearance (some existing) =
    displayed tag (rank_in placed)
      (joined_by placed (record existing { evidence_tags = add existing.evidence_tags tag }))
drafted tag placed appearance none = record {
  node_id = node_id_of tag placed;
  evidence_tags = tag ∷ [];
  match_status = status_of placed appearance;
  display_tag = tag;
  display_rank = rank_in placed;
  asset_id = asset_of placed;
  identity_tier = tier_of placed;
}

-- `nodeIdByTag` and `drafts`.
pub record Drafting : Type 0 where
  pub node_id_by_tag : Map Text Text
  pub drafts : Map Text NodeDraft

module _ (identity : FlowIdentity) (appearances : Map Text TagAppearance) where
  -- The body of the loop over the spellings.
  abbrev pub draft_tag : Text → Drafting → Drafting
  draft_tag tag d =
      let placed : Option (Text × IdentityTier) = placed_by (identity.outcomes tag) in
      let node_id : Text = node_id_of tag placed in
      record {
        node_id_by_tag = put d.node_id_by_tag tag node_id;
        drafts =
            put d.drafts node_id (drafted tag placed (get appearances tag) (get d.drafts node_id));
      }

  unfoldable pub draft_all : List Text → Drafting → Drafting
  unfolding compare_text
  draft_all [] d = d
  draft_all (tag ∷ tags) d = draft_all tags (draft_tag tag d)

unfoldable pub build_node_drafts : List ConnectivityObservation → FlowIdentity → Drafting
unfolding draft_all collect_appearances
build_node_drafts observations identity =
    draft_all identity (collect_appearances observations) (keys (collect_appearances observations))
      (record { node_id_by_tag = []; drafts = [] })
