-- ===== src/Domain/Identity.antt =====
-- packages/domain/src/identity.ts and the normalization steps of packages/domain/src/resolver-config.ts.
-- The wording that a match carries for a reviewer is left out.
use matchline.Base.{ℕ, Bool, List, [], ◌∷◌, Text, nat_beq}

pub data NormalizationStep : Type 0 where
  trim : NormalizationStep
  uppercase : NormalizationStep
  strip_prefix : (prefix : Text) → NormalizationStep
  pad_start : (length : ℕ) → (fill : Text) → NormalizationStep
  alias : (from to : Text) → NormalizationStep

-- The tiers but the last can match.
pub data MatchingTier : Type 0 where
  exact normalized by_alias by_anatomy suffix_unambiguous : MatchingTier

pub data IdentityTier : Type 0 where
  matching : MatchingTier → IdentityTier
  fuzzy_proposal : IdentityTier

abbrev pub identity_tier_order : List IdentityTier
identity_tier_order =
    matching exact
    ∷ matching normalized
    ∷ matching by_alias
    ∷ matching by_anatomy
    ∷ matching suffix_unambiguous
    ∷ fuzzy_proposal
    ∷ []

-- The place of a tier in the ladder.
abbrev pub tier_number : IdentityTier → ℕ
tier_number (matching exact) = 0
tier_number (matching normalized) = 1
tier_number (matching by_alias) = 2
tier_number (matching by_anatomy) = 3
tier_number (matching suffix_unambiguous) = 4
tier_number fuzzy_proposal = 5

abbrev pub tier_beq : IdentityTier → IdentityTier → Bool
tier_beq t u = nat_beq (tier_number t) (tier_number u)

pub record IdentityCandidate : Type 0 where
  pub asset_id : Text
  pub distance : ℕ

pub data IdentityOutcome : Type 0 where
  matched : (evidence_tag asset_id : Text) → IdentityTier → IdentityOutcome
  unmatched : (evidence_tag : Text) → (candidates : List IdentityCandidate) → IdentityOutcome
