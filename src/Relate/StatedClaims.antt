-- ===== src/Relate/StatedClaims.antt =====
-- packages/relationship-claims/src/assemble.ts: a property of the claims, over tiers 1, 2, 3, 6 and
-- 7.
use matchline.Base.{
  ◌≡◌, refl, inl, inr, ℕ, List, [], Option, none, some, ◌==◌, Text, text_eq, includes, All,
  All-concat, Bool-cases,
}
use matchline.Domain.Ladder.{LadderSourceKind, manual, explicit_model, learned_description}
use matchline.Domain.Claim.{SsmRelationshipClaim}
use matchline.Relate.Types.{
  ClaimSubject, ManualRelationshipOverride, LearnedClaimInput, Grade, claim, proposal, TagPair,
  ProfileSourceRef, SkipReason,
}
use matchline.Relate.Assemble.{
  Assembly, push, checked, pair_fault, Pairing, pair, fault, resolve_pair,
}
use matchline.Relate.Tiers.{
  take_override, overridden, take_subject, tag_stated, tag_resolved, take_tags, looked_up,
  take_learned, graded,
}

-- A property of claims that also reads the anchored pairs, and holds of every claim so far.
abbrev pub Holds : (List Text → SsmRelationshipClaim → Type 0) → Assembly → Type 0
Holds Q a = All (Q a.anchored_pairs) a.structural

pub checked-Holds :
    (Q : List Text → SsmRelationshipClaim → Type 0) (o : Option SkipReason) (l : LadderSourceKind)
    (c p : Text) (accepted a : Assembly)
    → Holds Q a
    → Holds Q accepted
    → Holds Q (checked o l c p accepted a)
checked-Holds Q none l c p accepted a s h = h
checked-Holds Q (some reason) l c p accepted a s h = s

module _ (Q : List Text → SsmRelationshipClaim → Type 0) (known : List Text) where
  -- Claims of the rung have the property, whatever is anchored.
  abbrev pub Allows : LadderSourceKind → Type 0
  Allows l = (anchored : List Text) (c : SsmRelationshipClaim) → c.ladder_source ≡ l → Q anchored c

  pub push-Holds :
      (c : SsmRelationshipClaim) (a : Assembly)
      → Holds Q a
      → Q a.anchored_pairs c
      → Holds Q (push c a)
  push-Holds c a s p = All-concat (Q a.anchored_pairs) a.structural s p

  module _ (source : ProfileSourceRef) where
    overridden-Holds :
        (n : ℕ) (o : ManualRelationshipOverride) (parent : Option Text) (a : Assembly)
        → Allows manual
        → Holds Q a
        → Holds Q (overridden known source n o parent a)
    overridden-Holds n o none a q s = s
    overridden-Holds n o (some p) a q s =
        checked-Holds Q (pair_fault known o.child_asset_id p) _ _ _ _ a s
          (push-Holds _ a s (q a.anchored_pairs _ refl))

    pub take_override-Holds :
        Allows manual
        → (n : ℕ) (o : ManualRelationshipOverride) (a : Assembly) → Holds Q a
        → Holds Q (take_override known source n o a)
    unfolding take_override
    take_override-Holds q n o a s = elim (Bool-cases (includes known o.child_asset_id)) [
      | inl there ↦ rw there (overridden-Holds n o o.parent_asset_id a q s)
      | inr away ↦ rw away s
    ]

    looked_up-Holds :
        (l : LadderSourceKind) (table : Text) (n : ℕ) (tags : TagPair) (p : Pairing) (a : Assembly)
        → Allows l
        → Holds Q a
        → Holds Q (looked_up known source l table n tags p a)
    looked_up-Holds l table n tags (pair c p) a q s = push-Holds _ a s (q a.anchored_pairs _ refl)
    looked_up-Holds l table n tags (fault r) a q s = s

    pub take_tags-Holds :
        (resolve_tag : Text → Option Text) (l : LadderSourceKind) (table : Text)
        → Allows l
        → (n : ℕ) (tags : TagPair) (a : Assembly) → Holds Q a
        → Holds Q (take_tags known source resolve_tag l table n tags a)
    unfolding take_tags
    take_tags-Holds resolve_tag l table q n tags a s =
        looked_up-Holds l table n tags (resolve_pair resolve_tag known tags) a q s

    graded-Holds :
        (n : ℕ) (i : LearnedClaimInput) (g : Grade) (a : Assembly)
        → Allows learned_description
        → Holds Q a
        → Holds Q (graded known source n i g a)
    graded-Holds n i proposal a q s = s
    graded-Holds n i claim a q s = push-Holds _ a s (q a.anchored_pairs _ refl)

    pub take_learned-Holds :
        Allows learned_description
        → (n : ℕ) (i : LearnedClaimInput) (a : Assembly) → Holds Q a
        → Holds Q (take_learned known source n i a)
    unfolding take_learned
    take_learned-Holds q n i a s =
        checked-Holds Q (pair_fault known i.child_asset_id i.parent_asset_id) _ _ _ _ a s
          (graded-Holds n i i.grade a q s)

  module _ (file : Text) (resolve_tag : Text → Option Text) where
    tag_resolved-Holds :
        (subject : ClaimSubject) (tag : Text) (o : Option Text) (a : Assembly)
        → Allows explicit_model
        → Holds Q a
        → Holds Q (tag_resolved known file resolve_tag subject tag o a)
    tag_resolved-Holds subject tag none a q s = s
    tag_resolved-Holds subject tag (some p) a q s =
        checked-Holds Q (pair_fault known subject.asset_id p) _ _ _ _ a s
          (push-Holds _ a s (q a.anchored_pairs _ refl))

    tag_stated-Holds :
        (subject : ClaimSubject) (o : Option Text) (a : Assembly)
        → Allows explicit_model
        → Holds Q a
        → Holds Q (tag_stated known file resolve_tag subject o a)
    tag_stated-Holds subject none a q s = s
    tag_stated-Holds subject (some tag) a q s = elim (Bool-cases (tag == [])) [
      | inl blank ↦ rw blank s
      | inr told ↦ rw told (tag_resolved-Holds subject tag (resolve_tag tag) a q s)
    ]

    pub take_subject-Holds :
        Allows explicit_model
        → (n : ℕ) (subject : ClaimSubject) (a : Assembly) → Holds Q a
        → Holds Q (take_subject known file resolve_tag n subject a)
    unfolding take_subject
    take_subject-Holds q n subject a s = tag_stated-Holds subject subject.explicit_parent_tag a q s
