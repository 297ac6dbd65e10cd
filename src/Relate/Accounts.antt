-- ===== src/Relate/Accounts.antt =====
-- packages/relationship-claims/src/assemble.ts: what becomes of each manual override, profile row,
-- learned rule and prior example.
use matchline.Base.{
  ◌≡◌, ◌∙◌, inl, inr, ℕ, suc, ◌+◌, List, [], ◌∷◌, ◌++◌, Option, none, some, arith, Text, text_eq,
  Map, keys, length, length-append, includes, Bool-cases,
}
use matchline.Domain.Ladder.{LadderSourceKind, profile_lookup, prior_ssm}
use matchline.Domain.Claim.{SsmRelationshipClaim}
use matchline.Relate.Mapping.{MakeRootDirective}
use matchline.Relate.Types.{
  ClaimSubject, ManualRelationshipOverride, LearnedClaimInput, Grade, claim, proposal, TagPair,
  ProfileSourceRef, AssembleOptions, SkipReason,
}
use matchline.Relate.Assemble.{
  Assembly, note, push, checked, pair_fault, Pairing, pair, fault, resolve_pair, for_each,
  profile_lookup_table, prior_ssm_table,
}
use matchline.Relate.Tiers.{
  push_root, take_override, overridden, take_tags, looked_up, take_learned, graded,
}
use matchline.Relate.Output.{profile, with_overrides, with_lookup, with_learned, with_prior}

-- How many entries the lists have that an input can go to.
abbrev pub entries : Assembly → ℕ
entries a = length a.structural + length a.proposals + length a.make_root + length a.skipped

one_more {ℓ} : {A : Type ℓ} (xs : List A) (x : A) → length (xs ++ x ∷ []) ≡ suc (length xs)
one_more xs x = omega (arith, length-append xs (x ∷ []))

entries-push : (c : SsmRelationshipClaim) (a : Assembly) → entries (push c a) ≡ suc (entries a)
entries-push c a = omega (arith, one_more a.structural c)

entries-push_root :
    (d : MakeRootDirective) (a : Assembly) → entries (push_root d a) ≡ suc (entries a)
entries-push_root d a = omega (arith, one_more a.make_root d)

entries-note :
    (l : LadderSourceKind) (r : SkipReason) (c : Text) (p : Option Text) (a : Assembly)
    → entries (note l r c p a) ≡ suc (entries a)
entries-note l r c p a = omega (
  arith,
  one_more a.skipped (record { ladder_source = l; reason = r; child_ref = c; parent_ref = p }),
)

entries-checked :
    (o : Option SkipReason) (l : LadderSourceKind) (c p : Text) (accepted a : Assembly)
    → entries accepted ≡ suc (entries a)
    → entries (checked o l c p accepted a) ≡ suc (entries a)
entries-checked none l c p accepted a h = h
entries-checked (some r) l c p accepted a h = entries-note l r c (some p) a

entries-for_each {ℓ} :
    {A : Type ℓ} (f : ℕ → A → Assembly → Assembly)
    → ((n : ℕ) (x : A) (a : Assembly) → entries (f n x a) ≡ suc (entries a))
    → (n : ℕ) (xs : List A) (a : Assembly) → entries (for_each f n xs a) ≡ length xs + entries a
entries-for_each f h n [] a = omega arith
entries-for_each f h n (x ∷ xs) a =
    entries-for_each f h (suc n) xs (f n x a) ∙ omega (arith, h n x a)

module _ (known : List Text) (source : ProfileSourceRef) where
  entries-overridden :
      (n : ℕ) (o : ManualRelationshipOverride) (p : Option Text) (a : Assembly)
      → entries (overridden known source n o p a) ≡ suc (entries a)
  entries-overridden n o none a = entries-push_root _ a
  entries-overridden n o (some p) a =
      entries-checked (pair_fault known o.child_asset_id p) _ _ _ _ a (entries-push _ a)

  entries-take_override :
      (n : ℕ) (o : ManualRelationshipOverride) (a : Assembly)
      → entries (take_override known source n o a) ≡ suc (entries a)
  unfolding take_override
  entries-take_override n o a = elim (Bool-cases (includes known o.child_asset_id)) [
    | inl there ↦ rw there (entries-overridden n o o.parent_asset_id a)
    | inr away ↦ rw away (entries-note _ _ _ _ a)
  ]

  entries-looked_up :
      (l : LadderSourceKind) (table : Text) (n : ℕ) (tags : TagPair) (p : Pairing) (a : Assembly)
      → entries (looked_up known source l table n tags p a) ≡ suc (entries a)
  entries-looked_up l table n tags (pair c p) a = entries-push _ a
  entries-looked_up l table n tags (fault r) a = entries-note _ _ _ _ a

  entries-take_tags :
      (resolve_tag : Text → Option Text) (l : LadderSourceKind) (table : Text) (n : ℕ)
      (tags : TagPair) (a : Assembly)
      → entries (take_tags known source resolve_tag l table n tags a) ≡ suc (entries a)
  unfolding take_tags
  entries-take_tags resolve_tag l table n tags a =
      entries-looked_up l table n tags (resolve_pair resolve_tag known tags) a

  entries-graded :
      (n : ℕ) (i : LearnedClaimInput) (g : Grade) (a : Assembly)
      → entries (graded known source n i g a) ≡ suc (entries a)
  entries-graded n i proposal a = omega (
    arith,
    one_more a.proposals (record {
      asset_id = i.child_asset_id;
      proposed_parent_id = i.parent_asset_id;
      rule_detail = i.rule_detail;
      confidence = i.confidence;
    }),
  )
  entries-graded n i claim a = entries-push _ a

  entries-take_learned :
      (n : ℕ) (i : LearnedClaimInput) (a : Assembly)
      → entries (take_learned known source n i a) ≡ suc (entries a)
  unfolding take_learned
  entries-take_learned n i a =
      entries-checked (pair_fault known i.child_asset_id i.parent_asset_id) _ _ _ _ a
        (entries-graded n i i.grade a)

-- No input vanishes: each manual override, each row of the profile lookup, each learned rule and each
-- prior example adds exactly one entry, which is a claim, a proposal for review, a directive for a root
-- or a skip with its reason.
pub with_inputs-entries :
    (by_id : Map Text ClaimSubject) (opts : AssembleOptions) (a : Assembly)
    → (entries (with_overrides by_id opts a) ≡ length opts.manual_overrides + entries a)
      × (entries (with_lookup by_id opts a) ≡ length opts.profile_lookup + entries a)
      × (entries (with_learned by_id opts a) ≡ length opts.learned + entries a)
      × (entries (with_prior by_id opts a) ≡ length opts.prior_ssm + entries a)
with_inputs-entries by_id opts a = (
  entries-for_each (take_override (keys by_id) (profile by_id opts))
      (entries-take_override (keys by_id) (profile by_id opts)) 0 opts.manual_overrides a,
  entries-for_each
      (take_tags (keys by_id) (profile by_id opts) opts.resolve_tag profile_lookup
        profile_lookup_table)
      (entries-take_tags (keys by_id) (profile by_id opts) opts.resolve_tag profile_lookup
        profile_lookup_table)
      0 opts.profile_lookup a,
  entries-for_each (take_learned (keys by_id) (profile by_id opts))
      (entries-take_learned (keys by_id) (profile by_id opts)) 0 opts.learned a,
  entries-for_each
      (take_tags (keys by_id) (profile by_id opts) opts.resolve_tag prior_ssm prior_ssm_table)
      (entries-take_tags (keys by_id) (profile by_id opts) opts.resolve_tag prior_ssm
        prior_ssm_table)
      0 opts.prior_ssm a,
)
