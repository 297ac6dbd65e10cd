-- ===== src/Relate/Grades.antt =====
-- packages/relationship-claims/src/assemble.ts, tier 6 of `assembleRelationshipClaims`: what each learned
-- rule gives.
use matchline.Base.{
  ◌≡◌, ◌≢◌, refl, sym, ◌∙◌, inl, inr, ℕ, suc, true, false, ◌++◌, List, [], ◌∷◌, Option, none, some,
  Text, text_eq, text_beq_iff, ◌==◌, Map, keys, includes, Bool-cases, append_assoc, append-nil,
  some_injective, subst,
}
use matchline.Relate.Types.{
  ClaimSubject, LearnedClaimInput, Grade, claim, proposal, ProfileSourceRef, AssembleOptions,
  SkipReason, unknown_child_asset, unknown_parent_asset, self_parent, SkippedClaimInput,
  NestingProposal,
}
use matchline.Relate.Assemble.{Assembly, checked, pair_fault, for_each}
use matchline.Relate.Tiers.{take_learned, graded}
use matchline.Relate.Output.{profile, with_learned}
use matchline.Domain.Claim.{SsmRelationshipClaim, structural_parent}
use matchline.Domain.Ladder.{learned_description}

-- A claim of the learned rung that the rule's parent is the parent of the rule's child.
pub record IsClaimOf (i : LearnedClaimInput) (c : SsmRelationshipClaim) : Type 0 where
  pub child : c.subject_asset_id ≡ i.child_asset_id
  pub parent : c.target_asset_id ≡ i.parent_asset_id
  pub kind : c.kind ≡ structural_parent
  pub rung : c.ladder_source ≡ learned_description

-- The proposal for review of the rule's pair, in the rule's words.
pub record IsProposalOf (i : LearnedClaimInput) (p : NestingProposal) : Type 0 where
  pub child : p.asset_id ≡ i.child_asset_id
  pub parent : p.proposed_parent_id ≡ i.parent_asset_id
  pub detail : p.rule_detail ≡ i.rule_detail
  pub confidence : p.confidence ≡ i.confidence

-- The skip of the rule's pair for a reason.
pub record IsSkipOf (i : LearnedClaimInput) (reason : SkipReason) (s : SkippedClaimInput)
    : Type 0 where
  pub rung : s.ladder_source ≡ learned_description
  pub why : s.reason ≡ reason
  pub child : s.child_ref ≡ i.child_asset_id
  pub parent : s.parent_ref ≡ some i.parent_asset_id

module _ (known : List Text) where
  -- The rule is about two different known assets.
  pub record IsUsable (i : LearnedClaimInput) : Type 0 where
    pub child_known : includes known i.child_asset_id ≡ true
    pub parent_known : includes known i.parent_asset_id ≡ true
    pub apart : i.child_asset_id ≢ i.parent_asset_id

  -- Why it is not: the child is asked for first, then the parent, then whether they are one asset.
  pub data Fails (i : LearnedClaimInput) : SkipReason → Type 0 where
    no_child : includes known i.child_asset_id ≡ false → Fails i unknown_child_asset
    no_parent :
        includes known i.child_asset_id ≡ true
        → includes known i.parent_asset_id ≡ false
        → Fails i unknown_parent_asset
    own_parent :
        includes known i.child_asset_id ≡ true
        → includes known i.parent_asset_id ≡ true
        → i.child_asset_id ≡ i.parent_asset_id
        → Fails i self_parent

  -- What the rules give, in their order: claims, proposals and skips.
  pub data Gives
      : List LearnedClaimInput
        → List SsmRelationshipClaim
        → List NestingProposal
        → List SkippedClaimInput
        → Type 0 where
    end_of_rules : Gives [] [] [] []
    by_claim :
        {i : LearnedClaimInput} {is : List LearnedClaimInput} {c : SsmRelationshipClaim}
        {cs : List SsmRelationshipClaim} {ps : List NestingProposal} {ss : List SkippedClaimInput}
        → IsUsable i
        → i.grade ≡ claim
        → IsClaimOf i c
        → Gives is cs ps ss
        → Gives (i ∷ is) (c ∷ cs) ps ss
    by_proposal :
        {i : LearnedClaimInput} {is : List LearnedClaimInput} {p : NestingProposal}
        {cs : List SsmRelationshipClaim} {ps : List NestingProposal} {ss : List SkippedClaimInput}
        → IsUsable i
        → i.grade ≡ proposal
        → IsProposalOf i p
        → Gives is cs ps ss
        → Gives (i ∷ is) cs (p ∷ ps) ss
    by_skip :
        {i : LearnedClaimInput} {is : List LearnedClaimInput} {s : SkippedClaimInput}
        {cs : List SsmRelationshipClaim} {ps : List NestingProposal} {ss : List SkippedClaimInput}
        {reason : SkipReason}
        → Fails i reason
        → IsSkipOf i reason s
        → Gives is cs ps ss
        → Gives (i ∷ is) cs ps (s ∷ ss)

  -- The second assembly has what the rules give behind what the first has, and all else is the same.
  pub record Adds (rules : List LearnedClaimInput) (a b : Assembly) : Type 0 where
    pub claims : List SsmRelationshipClaim
    pub proposals : List NestingProposal
    pub skips : List SkippedClaimInput
    pub given : Gives rules claims proposals skips
    pub structural_is : b.structural ≡ a.structural ++ claims
    pub proposals_is : b.proposals ≡ a.proposals ++ proposals
    pub skipped_is : b.skipped ≡ a.skipped ++ skips
    pub dependencies_is : b.dependencies ≡ a.dependencies
    pub make_root_is : b.make_root ≡ a.make_root

  IsUsable-of_none :
      (i : LearnedClaimInput)
      → pair_fault known i.child_asset_id i.parent_asset_id ≡ none
      → IsUsable i
  unfolding pair_fault
  IsUsable-of_none i e = elim (Bool-cases (includes known i.child_asset_id)) [
    | inr away ↦ let f : some unknown_child_asset ≡ none = rw away at e in cc
    | inl child_on ↦ elim (Bool-cases (includes known i.parent_asset_id)) [
      | inr away ↦ let f : some unknown_parent_asset ≡ none = rw (child_on, away) at e in cc
      | inl parent_on ↦ elim (Bool-cases (i.child_asset_id == i.parent_asset_id)) [
        | inl own ↦ let f : some self_parent ≡ none = rw (child_on, parent_on, own) at e in cc
        | inr two ↦ record {
          child_known = child_on;
          parent_known = parent_on;
          apart = λ s.
              let t : true ≡ false =
                (sym ((text_beq_iff i.child_asset_id i.parent_asset_id).1 s)) ∙ two in
              cc;
        }
      ]
    ]
  ]

  Fails-of_some :
      (i : LearnedClaimInput) (r : SkipReason)
      → pair_fault known i.child_asset_id i.parent_asset_id ≡ some r
      → Fails i r
  unfolding pair_fault
  Fails-of_some i r e = elim (Bool-cases (includes known i.child_asset_id)) [
    | inr away ↦ subst (Fails i) (some_injective (rw away at e)) (no_child away)
    | inl child_on ↦ elim (Bool-cases (includes known i.parent_asset_id)) [
      | inr away ↦
          subst (Fails i) (some_injective (rw (child_on, away) at e)) (no_parent child_on away)
      | inl parent_on ↦ elim (Bool-cases (i.child_asset_id == i.parent_asset_id)) [
        | inl own ↦ subst (Fails i) (some_injective (rw (child_on, parent_on, own) at e)) (
            own_parent child_on parent_on ((text_beq_iff i.child_asset_id i.parent_asset_id).0 own))
        | inr two ↦ let f : none ≡ some r = rw (child_on, parent_on, two) at e in cc
      ]
    ]
  ]

  module _ (source : ProfileSourceRef) where
    step-Adds :
        (n : ℕ) (i : LearnedClaimInput) (is : List LearnedClaimInput) (o : Option SkipReason)
        (g : Grade) (a : Assembly)
        → pair_fault known i.child_asset_id i.parent_asset_id ≡ o
        → i.grade ≡ g
        → ((b : Assembly) → Adds is b (for_each (take_learned known source) (suc n) is b))
        → Adds (i ∷ is) a (
            for_each (take_learned known source) (suc n) is (
              checked o learned_description i.child_asset_id i.parent_asset_id
                (graded known source n i g a)
                a))
    step-Adds n i is none claim a e grade on =
        let r = on (graded known source n i claim a) in
        record {
          claims = _ ∷ r.claims;
          proposals = r.proposals;
          skips = r.skips;
          given =
              by_claim (IsUsable-of_none i e) grade
                (record { child = refl; parent = refl; kind = refl; rung = refl }) r.given;
          structural_is = r.structural_is ∙ append_assoc a.structural (_ ∷ []) r.claims;
          proposals_is = r.proposals_is;
          skipped_is = r.skipped_is;
          dependencies_is = r.dependencies_is;
          make_root_is = r.make_root_is;
        }
    step-Adds n i is none proposal a e grade on =
        let r = on (graded known source n i proposal a) in
        record {
          claims = r.claims;
          proposals = _ ∷ r.proposals;
          skips = r.skips;
          given =
              by_proposal (IsUsable-of_none i e) grade
                (record { child = refl; parent = refl; detail = refl; confidence = refl }) r.given;
          structural_is = r.structural_is;
          proposals_is = r.proposals_is ∙ append_assoc a.proposals (_ ∷ []) r.proposals;
          skipped_is = r.skipped_is;
          dependencies_is = r.dependencies_is;
          make_root_is = r.make_root_is;
        }
    step-Adds n i is (some reason) g a e grade on =
        let r = on (
          checked (some reason) learned_description i.child_asset_id i.parent_asset_id
            (graded known source n i g a) a) in
        record {
          claims = r.claims;
          proposals = r.proposals;
          skips = _ ∷ r.skips;
          given =
              by_skip (Fails-of_some i reason e)
                (record { rung = refl; why = refl; child = refl; parent = refl }) r.given;
          structural_is = r.structural_is;
          proposals_is = r.proposals_is;
          skipped_is = r.skipped_is ∙ append_assoc a.skipped (_ ∷ []) r.skips;
          dependencies_is = r.dependencies_is;
          make_root_is = r.make_root_is;
        }

    all-Adds :
        (n : ℕ) (is : List LearnedClaimInput) (a : Assembly)
        → Adds is a (for_each (take_learned known source) n is a)
    unfolding take_learned
    all-Adds n [] a = record {
      claims = [];
      proposals = [];
      skips = [];
      given = end_of_rules;
      structural_is = sym (append-nil a.structural);
      proposals_is = sym (append-nil a.proposals);
      skipped_is = sym (append-nil a.skipped);
      dependencies_is = refl;
      make_root_is = refl;
    }
    all-Adds n (i ∷ is) a =
        step-Adds n i is (pair_fault known i.child_asset_id i.parent_asset_id) i.grade a refl refl
          (λ b. all-Adds (suc n) is b)

-- Each learned rule, in order, gives exactly one entry. A rule about two different known assets gives a
-- claim of the learned rung that its parent is the child's parent, if it has claim grade, and a proposal
-- for review of that pair, if it has proposal grade. Any other rule gives a skip that names the pair and
-- the first reason: the child is not known, the parent is not known, or they are one asset. These entries
-- follow what is there, and dependencies and root directives stay as they are.
pub with_learned-Adds :
    (by_id : Map Text ClaimSubject) (opts : AssembleOptions) (a : Assembly)
    → Adds (keys by_id) opts.learned a (with_learned by_id opts a)
with_learned-Adds by_id opts a = all-Adds (keys by_id) (profile by_id opts) 0 opts.learned a
