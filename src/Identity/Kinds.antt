-- ===== src/Identity/Kinds.antt =====
-- packages/identity/src/resolve.ts, `resolveOne` and `resolveTags`: the kinds of review items that a tag
-- can raise, and the keys that they are marked as seen by.
use matchline.Base.{
  ◌≡◌, ℕ, zero, suc, nat_beq, refl, inl, inr, List, [], ◌∷◌, ◌++◌, none, some, if◌then◌else◌, Text,
  text, text_eq, All, drop, Bool-cases, Option-cases, subst, some_injective,
}
use matchline.Domain.Identity.{
  MatchingTier, IdentityTier, matching, fuzzy_proposal, identity_tier_order, IdentityCandidate,
}
use matchline.Domain.Review.{
  ReviewItem, FuzzyIdentityCandidate, fuzzy_identity, ambiguous_suffix, unresolvable_alias,
}
use matchline.Identity.Build.{IdentityIndex}
use matchline.Identity.Tiers.{TierResult, missed, hit, refused, dead_alias, run_tier}
use matchline.Identity.Resolve.{
  Resolution, proposed, settled_by, tier_says, is_enabled, fuzzy_candidates, ladder_from,
  resolve_one, item_kind,
}
use matchline.Identity.Ladder.{says}

-- What a reviewer tells two review items of a batch apart by: the kind and the tag.
abbrev pub identity : ReviewItem → List ℕ
identity (fuzzy_identity tag candidates) = 0 ∷ tag
identity (ambiguous_suffix tag ids) = 1 ∷ tag
identity (unresolvable_alias tag target) = 2 ∷ tag
identity _ = []

-- The key that the code marks as seen, from kind and tag.
abbrev pub seen_key : List ℕ → Text
seen_key [] = []
seen_key (zero ∷ tag) = text "fuzzy-identity" ++ 0 ∷ tag
seen_key (suc zero ∷ tag) = text "ambiguous-suffix" ++ 0 ∷ tag
seen_key (suc (suc n) ∷ tag) = text "unresolvable-alias" ++ 0 ∷ tag

-- The kind of a key is known from its first letter.
abbrev pub seen_identity : Text → List ℕ
seen_identity [] = []
seen_identity (c ∷ key) =
    if nat_beq c 102
    then 0 ∷ drop 14 key
    else if nat_beq c 97
    then 1 ∷ drop 16 key
    else 2 ∷ drop 18 key

-- An item of one of the three kinds, for this tag.
pub data IsFor (tag : Text) : ReviewItem → Type 0 where
  a_fuzzy : {cs : List FuzzyIdentityCandidate} → IsFor tag (fuzzy_identity tag cs)
  a_suffix : {ids : List Text} → IsFor tag (ambiguous_suffix tag ids)
  an_alias : {target : Text} → IsFor tag (unresolvable_alias tag target)

pub seen_key-of_item :
    (tag : Text) (item : ReviewItem)
    → IsFor tag item
    → item_kind item ++ 0 ∷ tag ≡ seen_key (identity item)
seen_key-of_item tag _ a_fuzzy = refl
seen_key-of_item tag _ a_suffix = refl
seen_key-of_item tag _ an_alias = refl

pub seen_identity-seen_key :
    (tag : Text) (item : ReviewItem)
    → IsFor tag item
    → seen_identity (seen_key (identity item)) ≡ identity item
seen_identity-seen_key tag _ a_fuzzy = refl
seen_identity-seen_key tag _ a_suffix = refl
seen_identity-seen_key tag _ an_alias = refl

module _ (upper : Text → Text) (index : IdentityIndex) (tag : Text) where
  settled_by-IsFor :
      (m : MatchingTier) (res : TierResult) (r : Resolution)
      → settled_by upper index tag m res ≡ some r
      → All (IsFor tag) r.review_items
  settled_by-IsFor m missed r e = cc
  settled_by-IsFor m (hit a) r e = subst (λ q. All (IsFor tag) q.review_items) (some_injective e) tt
  settled_by-IsFor m (refused ids) r e =
      subst (λ q. All (IsFor tag) q.review_items) (some_injective e) (a_suffix, tt)
  settled_by-IsFor m (dead_alias target) r e =
      subst (λ q. All (IsFor tag) q.review_items) (some_injective e) (an_alias, tt)

  proposed-IsFor : (cs : List IdentityCandidate) → All (IsFor tag) (proposed tag cs).review_items
  proposed-IsFor [] = tt
  proposed-IsFor (c ∷ cs) = (a_fuzzy, tt)

  says-IsFor :
      (tier : IdentityTier) (r : Resolution)
      → says upper index tag tier ≡ some r
      → All (IsFor tag) r.review_items
  says-IsFor tier r e = elim (Bool-cases (is_enabled upper index tier)) [
    | inr off ↦ let f : none ≡ some r = rw off at e in cc
    | inl on ↦ go tier (rw on at e)
  ]
    where
      go :
          (tier : IdentityTier)
          → tier_says upper index tag tier ≡ some r
          → All (IsFor tag) r.review_items
      go (matching m) f = settled_by-IsFor m (run_tier upper index tag m) r f
      go fuzzy_proposal f =
          subst (λ q. All (IsFor tag) q.review_items) (some_injective f)
            (proposed-IsFor (fuzzy_candidates upper index tag))

  ladder_from-IsFor :
      (tiers : List IdentityTier) → All (IsFor tag) (ladder_from upper index tag tiers).review_items
  unfolding ladder_from
  ladder_from-IsFor [] = tt
  ladder_from-IsFor (tier ∷ tiers) = elim (Option-cases (says upper index tag tier)) [
    | inl silent ↦ rw (silent, ladder_from) (ladder_from-IsFor tiers)
    | inr (r, says_r) ↦ rw (says_r, ladder_from) (says-IsFor tier r says_r)
  ]

pub resolve_one-IsFor :
    (upper : Text → Text) (index : IdentityIndex) (tag : Text)
    → All (IsFor tag) (resolve_one upper index tag).review_items
unfolding resolve_one
resolve_one-IsFor upper index [] = tt
resolve_one-IsFor upper index (c ∷ s) = ladder_from-IsFor upper index (c ∷ s) identity_tier_order
