-- ===== src/Identity/Build.antt =====
-- packages/identity/src/types.ts and build.ts: the index of one asset universe. An optional list or map of
-- the configuration that is absent is `none`, or empty where the two mean the same.
use matchline.Base.{
  ℕ, Bool, true, false, List, [], ◌∷◌, ◌++◌, Option, none, some, if◌then◌else◌, Text, text_eq, Map,
  get, put,
}
use matchline.Domain.Anatomy.{TagAnatomyConfig}
use matchline.Domain.Identity.{NormalizationStep, IdentityTier, identity_tier_order}
use matchline.Identity.Normalize.{normalize_tag}
use matchline.Identity.Boundary.{BoundaryCut, boundary_cuts, default_tag_separators}
use matchline.Identity.AnatomyKey.{anatomy_can_identify, anatomy_identity_key}

pub record IdentityAsset : Type 0 where
  pub asset_id : Text
  pub canonical_tag : Text

-- A requested bound: a number that is not finite, that is below zero, or the natural number to which it
-- is cut.
pub data RequestedDistance : Type 0 where
  not_finite : RequestedDistance
  below_zero : RequestedDistance
  truncated : ℕ → RequestedDistance

pub record IdentityConfig : Type 0 where
  pub tag_normalization : List NormalizationStep
  pub aliases : Map Text Text
  pub anatomy : Option TagAnatomyConfig
  pub enabled_tiers : Option (List IdentityTier)
  pub fuzzy_max_distance : Option RequestedDistance

pub record BoundaryPrefixEntry : Type 0 where
  pub entry : IdentityAsset
  pub separator : Text

pub record IdentityIndex : Type 0 where
  pub assets : List IdentityAsset
  pub config : IdentityConfig
  pub enabled_tiers : List IdentityTier
  pub fuzzy_max_distance : ℕ
  pub separators : List Text
  pub by_exact_tag : Map Text (List IdentityAsset)
  pub by_normalized_tag : Map Text (List IdentityAsset)
  pub by_anatomy_key : Map Text (List IdentityAsset)
  pub by_boundary_prefix : Map Text (List BoundaryPrefixEntry)

abbrev pub default_fuzzy_max_distance : ℕ
default_fuzzy_max_distance = 2

-- `map.get(key) ?? []`
abbrev pub listed_under {ℓ} : {A : Type ℓ} → Option (List A) → List A
listed_under none = []
listed_under (some xs) = xs

-- `push_under(map, key, value)`
unfoldable pub push_under {ℓ} : {A : Type ℓ} → Map Text (List A) → Text → A → Map Text (List A)
push_under m key value = put m key (listed_under (get m key) ++ value ∷ [])

abbrev pub resolve_max_distance : Option RequestedDistance → ℕ
resolve_max_distance none = default_fuzzy_max_distance
resolve_max_distance (some not_finite) = default_fuzzy_max_distance
resolve_max_distance (some below_zero) = 0
resolve_max_distance (some (truncated n)) = n

abbrev pub is_blank : Text → Bool
is_blank [] = true
is_blank (c ∷ s) = false

-- The first loop: an asset with no tag has no identity.
abbrev pub tagged : List IdentityAsset → List IdentityAsset
tagged [] = []
tagged (asset ∷ assets) =
    if is_blank asset.canonical_tag then tagged assets else asset ∷ tagged assets

abbrev separators_of : Option TagAnatomyConfig → List Text
separators_of none = default_tag_separators
separators_of (some anatomy) = anatomy.separators

abbrev pub identifying : Option TagAnatomyConfig → Option TagAnatomyConfig
identifying none = none
identifying (some anatomy) = if anatomy_can_identify anatomy then some anatomy else none

abbrev pub enabled : Option (List IdentityTier) → List IdentityTier
enabled none = identity_tier_order
enabled (some tiers) = tiers

abbrev pub anatomy_key : Option TagAnatomyConfig → Text → Option Text
anatomy_key none tag = none
anatomy_key (some anatomy) tag = anatomy_identity_key anatomy tag

-- `if (key !== undefined) push_under(map, key, value)`
abbrev pub push_known {ℓ} : {A : Type ℓ} → Map Text (List A) → Option Text → A → Map Text (List A)
push_known m none value = m
push_known m (some key) value = push_under m key value

unfoldable pub push_cuts :
    IdentityAsset
    → List BoundaryCut
    → Map Text (List BoundaryPrefixEntry)
    → Map Text (List BoundaryPrefixEntry)
unfolding push_under
push_cuts entry [] m = m
push_cuts entry (cut ∷ cuts) m =
    push_cuts entry cuts
      (push_under m cut.prefix (record { entry = entry; separator = cut.separator }))

module _ (to_upper_case : Text → Text) (config : IdentityConfig) where
  -- The body of the second loop.
  abbrev pub indexed : IdentityAsset → IdentityIndex → IdentityIndex
  indexed entry index = record index {
    by_exact_tag = push_under index.by_exact_tag entry.canonical_tag entry;
    by_normalized_tag =
        push_under index.by_normalized_tag
          (normalize_tag to_upper_case entry.canonical_tag config.tag_normalization) entry;
    by_anatomy_key =
        push_known index.by_anatomy_key
          (anatomy_key (identifying config.anatomy) entry.canonical_tag) entry;
    by_boundary_prefix =
        push_cuts entry (boundary_cuts entry.canonical_tag index.separators)
          index.by_boundary_prefix;
  }

  unfoldable pub index_all : List IdentityAsset → IdentityIndex → IdentityIndex
  unfolding push_under push_cuts
  index_all [] index = index
  index_all (entry ∷ entries) index = index_all entries (indexed entry index)

  abbrev pub empty_index : List IdentityAsset → IdentityIndex
  empty_index assets = record {
    assets = assets;
    config = config;
    enabled_tiers = enabled config.enabled_tiers;
    fuzzy_max_distance = resolve_max_distance config.fuzzy_max_distance;
    separators = separators_of config.anatomy;
    by_exact_tag = [];
    by_normalized_tag = [];
    by_anatomy_key = [];
    by_boundary_prefix = [];
  }

  unfoldable pub build_identity_index : List IdentityAsset → IdentityIndex
  unfolding index_all
  build_identity_index assets = index_all (tagged assets) (empty_index (tagged assets))
