-- ===== src/Ssm/Resolve/Conservation.antt =====
-- packages/ssm-compiler/src/compile.ts, `resolveSubject`: the winning claim and `losingClaims`.
use matchline.Base.{
  ◌≡◌, ◌≢◌, ◌↔◌, refl, sym, ◌∙◌, ap, inl, inr, ◌⊎◌, subst, ◌&&◌, ◌++◌, ◌==◌, ==_iff, any, All,
  Option, Option-cases, Text, text_beq_iff, some_injective, Bool, true, false, not, List, [], ◌∷◌,
  none, some, ℕ, zero, suc, ◌+◌, ◌<◌, arith, text_eq, get, includes, keep_if, map, nat_beq,
  get_elem?, Perm, sort-perm, Bool-cases,
}
use mathlib.Core.List.Perm
use matchline.Domain.Claim.{SsmRelationshipClaim, structural_parent}
use matchline.Domain.Ladder.{model_tree, source_eq}
use matchline.Domain.Snapshot.{ResolvedAssetNode}
use matchline.Ssm.Fold.{CompileSubject}
use matchline.Ssm.Order.{compare_claims}
use matchline.Ssm.Ladder.{
  WalkContext, Held, claim_pool, hold_from, with_suggestion, listed, model_tree_claim,
}
use matchline.Ssm.Resolve.{
  Walk, Winner, start_walk, final_walk, losers, resolution_of, resolve_subject,
}
use matchline.Ssm.Resolve.Turns.{StandsIn}
use matchline.Ssm.Resolve.Endings.{Ended, exhausted, placed, tied, unknown}
use matchline.Ssm.Resolve.Decisions.{IsFree, final-Ended}
use matchline.Ssm.Resolve.Placement.{made_root_walk, start_winner}

abbrev other_than : ℕ → Held → Bool
other_than p h = not (nat_beq h.place p)

abbrev claims_of : List Held → List SsmRelationshipClaim
claims_of = map (λ h. h.claim)

keep_all_after :
    (cs : List SsmRelationshipClaim) (n p : ℕ)
    → p < n
    → claims_of (keep_if (other_than p) (hold_from n cs)) ≡ cs
unfolding hold_from
keep_all_after [] n p h = refl
keep_all_after (c ∷ cs) n p h = ground (arith, keep_all_after cs (suc n) p)

claims_of-hold_from : (cs : List SsmRelationshipClaim) (n : ℕ) → claims_of (hold_from n cs) ≡ cs
unfolding hold_from
claims_of-hold_from [] n = refl
claims_of-hold_from (c ∷ cs) n = ap (◌∷◌ c) (claims_of-hold_from cs (suc n))

-- Without the claim at one place, the list is the rest.
others-perm :
    (cs : List SsmRelationshipClaim) (n i p : ℕ) (c : SsmRelationshipClaim)
    → p ≡ i + n
    → get_elem? cs i ≡ some c
    → Perm (c ∷ claims_of (keep_if (other_than p) (hold_from n cs))) cs
unfolding hold_from
others-perm [] n i p c e g = cc
others-perm (d ∷ cs) n zero p c e g =
    let same : c ≡ d = ground arith in
    let here : nat_beq n p ≡ true = ground arith in
    rw (here, keep_all_after cs (suc n) p (omega arith), same) Perm.rfl
others-perm (d ∷ cs) n (suc i) p c e g =
    let there : nat_beq n p ≡ false = ground arith in
    rw there
      (Perm.trans (Perm.swap d c _) (Perm.cons d (others-perm cs (suc n) i p c (omega arith) g)))

-- All claims that a node keeps.
abbrev pub claims_kept : ResolvedAssetNode → List SsmRelationshipClaim
claims_kept node = elim node.parent.winning_claim [
  | none ↦ node.losing_claims
  | some claim ↦ claim ∷ node.losing_claims
]

-- The claims about an asset, from what the map of claims by subject has for it.
abbrev pub made_about : Option (List SsmRelationshipClaim) → List SsmRelationshipClaim
made_about none = []
made_about (some claims) = claims

-- The model tree's suggestion for the asset counts: it is not blank and not the asset itself, and no claim
-- of the model tree's rung names that parent already.
pub record Suggests (asset_id : Text) (tree_parent : Option Text) (made : List SsmRelationshipClaim)
    (suggested : Text) : Type 0 where
  pub in_tree : tree_parent ≡ some suggested
  pub not_blank : suggested ≢ []
  pub not_itself : suggested ≢ asset_id
  pub not_claimed :
      All (λ c. ¬ ((c.ladder_source ≡ model_tree) × (c.target_asset_id ≡ suggested))) made

-- A claim of the model tree's rung that the suggested asset is the parent.
pub record IsTreeClaim (asset_id suggested : Text) (c : SsmRelationshipClaim) : Type 0 where
  pub child : c.subject_asset_id ≡ asset_id
  pub parent : c.target_asset_id ≡ suggested
  pub kind : c.kind ≡ structural_parent
  pub rung : c.ladder_source ≡ model_tree

-- The claims kept are those made and one for the suggestion that counts, or those made if none does.
abbrev pub Conserves :
    Text → Option Text → List SsmRelationshipClaim → List SsmRelationshipClaim → Type 0
Conserves asset_id tree_parent made kept =
    ((suggested : Text) × (c : SsmRelationshipClaim) × Suggests asset_id tree_parent made suggested
      × IsTreeClaim asset_id suggested c
      × Perm kept (c ∷ made))
    ⊎ (((suggested : Text) → ¬ Suggests asset_id tree_parent made suggested) × Perm kept made)

abbrev claims_tree : Text → SsmRelationshipClaim → Bool
claims_tree suggested c = c.ladder_source == model_tree && c.target_asset_id == suggested

claims_tree_iff :
    (suggested : Text) (c : SsmRelationshipClaim)
    → (claims_tree suggested c ≡ true)
      ↔ ((c.ladder_source ≡ model_tree) × (c.target_asset_id ≡ suggested))
claims_tree_iff suggested c = (
  λ e. (
    (==_iff c.ladder_source model_tree).0 (ground arith),
    (==_iff c.target_asset_id suggested).0 (ground arith),
  ),
  λ (a, b).
      let x = (==_iff c.ladder_source model_tree).1 a in
      let y = (==_iff c.target_asset_id suggested).1 b in rw (x, y) refl,
)

unclaimed_iff :
    (suggested : Text) (made : List SsmRelationshipClaim)
    → (any (claims_tree suggested) made ≡ false)
      ↔ All (λ c. ¬ ((c.ladder_source ≡ model_tree) × (c.target_asset_id ≡ suggested))) made
unclaimed_iff suggested [] = (λ _. tt, λ _. refl)
unclaimed_iff suggested (c ∷ made) = (
  λ e. elim (Bool-cases (claims_tree suggested c)) [
    | inl on ↦ let f : true ≡ false = rw on at e in cc
    | inr off ↦ (
      λ p. let f : true ≡ false = sym ((claims_tree_iff suggested c).1 p) ∙ off in cc,
      (unclaimed_iff suggested made).0 (rw off at e),
    )
  ],
  λ (n, ns). elim (Bool-cases (claims_tree suggested c)) [
    | inl on ↦ absurd (n ((claims_tree_iff suggested c).0 on))
    | inr off ↦ rw off ((unclaimed_iff suggested made).1 ns)
  ],
)

last-perm :
    (cs : List SsmRelationshipClaim) (c : SsmRelationshipClaim) → Perm (cs ++ c ∷ []) (c ∷ cs)
last-perm [] c = Perm.rfl
last-perm (d ∷ cs) c = Perm.trans (Perm.cons d (last-perm cs c)) (Perm.swap c d cs)

joined :
    (asset_id s : Text) (made : List SsmRelationshipClaim)
    → (s == []) ≡ false
    → (s == asset_id) ≡ false
    → any (claims_tree s) made ≡ false
    → (suggested : Text) × (c : SsmRelationshipClaim) × Suggests asset_id (some s) made suggested
      × IsTreeClaim asset_id suggested c
      × Perm (made ++ model_tree_claim asset_id s ∷ []) (c ∷ made)
joined asset_id s made full other new = (
  s,
  model_tree_claim asset_id s,
  record {
    in_tree = refl;
    not_blank = λ b. let f : true ≡ false = sym ((text_beq_iff s []).1 b) ∙ full in cc;
    not_itself = λ b. let f : true ≡ false = sym ((text_beq_iff s asset_id).1 b) ∙ other in cc;
    not_claimed = (unclaimed_iff s made).0 new;
  },
  record { child = refl; parent = refl; kind = refl; rung = refl },
  last-perm made (model_tree_claim asset_id s),
)

with_suggestion-Conserves :
    (asset_id : Text) (tree_parent : Option Text) (made : List SsmRelationshipClaim)
    → Conserves asset_id tree_parent made (with_suggestion asset_id tree_parent made)
unfolding with_suggestion
with_suggestion-Conserves asset_id none made = inr (λ s g. cc g.in_tree, Perm.rfl)
with_suggestion-Conserves asset_id (some s) made = elim (Bool-cases (s == [])) [
  | inl blank ↦
      let b : s ≡ [] = (text_beq_iff s []).0 blank in
      rw blank (inr (λ t g. g.not_blank (some_injective (sym g.in_tree) ∙ b), Perm.rfl))
  | inr full ↦ elim (Bool-cases (s == asset_id)) [
    | inl own ↦
        let b : s ≡ asset_id = (text_beq_iff s asset_id).0 own in
        rw (full, own) (inr (λ t g. g.not_itself (some_injective (sym g.in_tree) ∙ b), Perm.rfl))
    | inr other ↦ elim (Bool-cases (any (claims_tree s) made)) [
      | inl old ↦
          rw (full, other, old)
            (inr (
              λ t g.
                  let u : any (claims_tree s) made ≡ false = (unclaimed_iff s made).1 (
                    subst
                      (λ v.
                        All (λ c. ¬ ((c.ladder_source ≡ model_tree) × (c.target_asset_id ≡ v)))
                          made)
                      (some_injective (sym g.in_tree)) g.not_claimed) in
                  let f : true ≡ false = sym old ∙ u in cc,
              Perm.rfl,
            ))
      | inr new ↦ rw (full, other, new) (inl (joined asset_id s made full other new))
    ]
  ]
]

Conserves-of_perm :
    (asset_id : Text) (tree_parent : Option Text) (made kept kept' : List SsmRelationshipClaim)
    → Perm kept' kept
    → Conserves asset_id tree_parent made kept
    → Conserves asset_id tree_parent made kept'
Conserves-of_perm asset_id tree_parent made kept kept' p (inl (s, c, g, t, q)) =
    inl (s, c, g, t, Perm.trans p q)
Conserves-of_perm asset_id tree_parent made kept kept' p (inr (n, q)) = inr (n, Perm.trans p q)

module _ (ctx : WalkContext) (subject : CompileSubject) where
  abbrev pooled : List SsmRelationshipClaim
  pooled =
      with_suggestion subject.asset_id subject.model_tree_parent_id
        (listed (get ctx.structural_by_subject subject.asset_id))

  listed-made :
      listed (get ctx.structural_by_subject subject.asset_id)
      ≡ made_about (get ctx.structural_by_subject subject.asset_id)
  listed-made = elim (Option-cases (get ctx.structural_by_subject subject.asset_id)) [
    | inl e ↦ rw e refl
    | inr (cs, e) ↦ rw e refl
  ]

  kept_of_none :
      (w : Walk)
      → w.winner ≡ none
      → Perm (claims_kept (resolution_of subject ctx w).node) (claim_pool subject ctx)
  unfolding losers
  kept_of_none w e = rw (e, losers, claims_of-hold_from) Perm.rfl

  kept_of_winner :
      (w : Walk) (winner : Winner)
      → w.winner ≡ some winner
      → StandsIn (claim_pool subject ctx) winner.held
      → Perm (claims_kept (resolution_of subject ctx w).node) (claim_pool subject ctx)
  unfolding losers
  kept_of_winner w winner e s =
      rw (e, losers)
        (others-perm (claim_pool subject ctx) 0 winner.held.place winner.held.place
          winner.held.claim (omega arith) s)

  kept_of_end :
      Ended ctx subject ctx.ladder.tiers (start_walk ctx subject) (final_walk ctx subject)
      → Perm
          (claims_kept (resolution_of subject ctx (final_walk ctx subject)).node)
          (claim_pool subject ctx)
  kept_of_end (exhausted all x y z) =
      kept_of_none (final_walk ctx subject) (x ∙ start_winner ctx subject)
  kept_of_end (tied t ids r ti nm x y z) =
      kept_of_none (final_walk ctx subject) (x ∙ start_winner ctx subject)
  kept_of_end (unknown t q l po on r f x y z) =
      kept_of_none (final_walk ctx subject) (x ∙ start_winner ctx subject)
  kept_of_end (placed t q h r w c x y z) =
      kept_of_winner (final_walk ctx subject) (record { parent_id = q; source = t; held = h }) x
        c.stands

  kept_all : Perm (claims_kept (resolve_subject subject ctx).node) pooled
  unfolding resolve_subject claim_pool
  kept_all =
      Perm.trans (whole (Bool-cases (includes ctx.make_root_ids subject.asset_id)))
        (sort-perm (compare_claims ctx.ladder) pooled)
    where
      whole :
          (includes ctx.make_root_ids subject.asset_id ≡ true) ⊎ IsFree ctx subject
          → Perm
              (claims_kept (resolution_of subject ctx (final_walk ctx subject)).node)
              (claim_pool subject ctx)
      whole (inl made_root) =
          kept_of_none (final_walk ctx subject) (made_root_walk ctx subject made_root).0
      whole (inr free) = kept_of_end (final-Ended ctx subject free)

  -- Every structural claim that the map of claims by subject has for an asset is on its node, as often
  -- as it is there: one as the winner, if there is one, and all others among the losing claims. Besides them
  -- there is one claim of the model tree's rung, for the parent that the model tree suggests, if that
  -- parent is not blank, not the asset itself and not claimed on that rung already; and nothing
  -- besides them if there is no such parent.
  pub resolve_subject-perm :
      Conserves subject.asset_id subject.model_tree_parent_id
        (made_about (get ctx.structural_by_subject subject.asset_id))
        (claims_kept (resolve_subject subject ctx).node)
  resolve_subject-perm =
      subst
        (λ made.
          Conserves subject.asset_id subject.model_tree_parent_id made
            (claims_kept (resolve_subject subject ctx).node))
        listed-made
        (Conserves-of_perm subject.asset_id subject.model_tree_parent_id
          (listed (get ctx.structural_by_subject subject.asset_id)) pooled
          (claims_kept (resolve_subject subject ctx).node) kept_all
          (with_suggestion-Conserves subject.asset_id subject.model_tree_parent_id
            (listed (get ctx.structural_by_subject subject.asset_id))))
