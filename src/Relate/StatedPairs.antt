-- ===== src/Relate/StatedPairs.antt =====
-- packages/relationship-claims/src/assemble.ts: the claims of tiers 1, 2, 3, 6 and 7.
use matchline.Base.{
  inl, inr, ℕ, List, [], Option, none, some, ◌==◌, Text, text_eq, includes, Bool-cases,
}
use matchline.Domain.Ladder.{LadderSourceKind}
use matchline.Relate.Types.{
  ClaimSubject, ManualRelationshipOverride, LearnedClaimInput, Grade, claim, proposal, TagPair,
  ProfileSourceRef,
}
use matchline.Relate.Assemble.{Assembly, pair_fault, Pairing, pair, fault, resolve_pair}
use matchline.Relate.Tiers.{
  take_override, overridden, take_subject, tag_stated, tag_resolved, take_tags, looked_up,
  take_learned, graded,
}
use matchline.Relate.Pairs.{
  IsPair, Sound, pair_fault-none, IsSoundPairing, resolve_pair-IsSoundPairing, checked-Sound,
  push-Sound,
}

module _ (known : List Text) where
  module _ (source : ProfileSourceRef) where
    overridden-Sound :
        (n : ℕ) (o : ManualRelationshipOverride) (parent : Option Text) (a : Assembly)
        → Sound known a
        → Sound known (overridden known source n o parent a)
    overridden-Sound n o none a s = s
    overridden-Sound n o (some p) a s =
        checked-Sound known (pair_fault known o.child_asset_id p) _ _ _ _ a s
          (λ e. push-Sound known _ a s (pair_fault-none known o.child_asset_id p e))

    pub take_override-Sound :
        (n : ℕ) (o : ManualRelationshipOverride) (a : Assembly)
        → Sound known a
        → Sound known (take_override known source n o a)
    unfolding take_override
    take_override-Sound n o a s = elim (Bool-cases (includes known o.child_asset_id)) [
      | inl there ↦ rw there (overridden-Sound n o o.parent_asset_id a s)
      | inr away ↦ rw away s
    ]

    looked_up-Sound :
        (l : LadderSourceKind) (table : Text) (n : ℕ) (tags : TagPair) (p : Pairing) (a : Assembly)
        → IsSoundPairing known p
        → Sound known a
        → Sound known (looked_up known source l table n tags p a)
    looked_up-Sound l table n tags (pair c p) a h s = push-Sound known _ a s h
    looked_up-Sound l table n tags (fault r) a h s = s

    pub take_tags-Sound :
        (resolve_tag : Text → Option Text) (l : LadderSourceKind) (table : Text) (n : ℕ)
        (tags : TagPair) (a : Assembly)
        → Sound known a
        → Sound known (take_tags known source resolve_tag l table n tags a)
    unfolding take_tags
    take_tags-Sound resolve_tag l table n tags a s =
        looked_up-Sound l table n tags (resolve_pair resolve_tag known tags) a
          (resolve_pair-IsSoundPairing resolve_tag known tags) s

    graded-Sound :
        (n : ℕ) (i : LearnedClaimInput) (g : Grade) (a : Assembly)
        → Sound known a
        → IsPair known i.child_asset_id i.parent_asset_id
        → Sound known (graded known source n i g a)
    graded-Sound n i proposal a s p = s
    graded-Sound n i claim a s p = push-Sound known _ a s p

    pub take_learned-Sound :
        (n : ℕ) (i : LearnedClaimInput) (a : Assembly)
        → Sound known a
        → Sound known (take_learned known source n i a)
    unfolding take_learned
    take_learned-Sound n i a s =
        checked-Sound known (pair_fault known i.child_asset_id i.parent_asset_id) _ _ _ _ a s (λ e.
          graded-Sound n i i.grade a s (pair_fault-none known i.child_asset_id i.parent_asset_id e))

  module _ (file : Text) (resolve_tag : Text → Option Text) where
    tag_resolved-Sound :
        (subject : ClaimSubject) (tag : Text) (o : Option Text) (a : Assembly)
        → Sound known a
        → Sound known (tag_resolved known file resolve_tag subject tag o a)
    tag_resolved-Sound subject tag none a s = s
    tag_resolved-Sound subject tag (some p) a s =
        checked-Sound known (pair_fault known subject.asset_id p) _ _ _ _ a s
          (λ e. push-Sound known _ a s (pair_fault-none known subject.asset_id p e))

    tag_stated-Sound :
        (subject : ClaimSubject) (o : Option Text) (a : Assembly)
        → Sound known a
        → Sound known (tag_stated known file resolve_tag subject o a)
    tag_stated-Sound subject none a s = s
    tag_stated-Sound subject (some tag) a s = elim (Bool-cases (tag == [])) [
      | inl blank ↦ rw blank s
      | inr told ↦ rw told (tag_resolved-Sound subject tag (resolve_tag tag) a s)
    ]

    pub take_subject-Sound :
        (n : ℕ) (subject : ClaimSubject) (a : Assembly)
        → Sound known a
        → Sound known (take_subject known file resolve_tag n subject a)
    unfolding take_subject
    take_subject-Sound n subject a s = tag_stated-Sound subject subject.explicit_parent_tag a s
