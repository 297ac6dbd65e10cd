-- ===== src/Ssm/Resolve/Turns.antt =====
-- packages/ssm-compiler/src/compile.ts, `resolveSubject`: each turn of the loop over the rungs, by
-- what the rung says.
use matchline.Base.{
  ◌≡◌, refl, ◌∙◌, inl, inr, true, List, [], ◌∷◌, ◌++◌, Option, none, some, ℕ, suc, ◌+◌, arith, ◌==◌,
  Text, text_eq, compare_text, Map, get, has, keys, All, get_elem?, includes, any, includes-sort,
  Bool-cases, get-some_of_has,
}
use matchline.Domain.Ladder.{
  LadderSourceKind, manual, source_eq, source_beq_iff, MissingValuePolicy,
}
use matchline.Domain.Claim.{SsmRelationshipClaim}
use matchline.Domain.Review.{ambiguous_parent}
use matchline.Domain.Snapshot.{unresolved}
use matchline.Ssm.Fold.{CompileSubject, FoldOutcome, keep, demote, missing, fold_boundaries}
use matchline.Ssm.Ladder.{WalkContext, Held, status_for_policy, claim_pool, hold_from}
use matchline.Ssm.Ladder.Names.{names}
use matchline.Ssm.Ladder.Candidates.{IsCandidate, index_candidates-AreCandidates}
use matchline.Ssm.Resolve.{
  Walk, Turn, next, stop, settle, fold_turn, single_turn, tier_turn, missing_items, held_pool,
}
use matchline.Ssm.Resolve.Rungs.{
  Names, IsSole, Folds, Wins, by_hand, kept, IsTied, by_tier, named_iff, not-Names,
  IsSole-of_candidates, IsTied-of_candidates,
}

-- The claim stands at its place in the list.
abbrev pub StandsIn : List SsmRelationshipClaim → Held → Type 0
StandsIn claims h = get_elem? claims h.place ≡ some h.claim

module _ (claims : List SsmRelationshipClaim) where
  hold_from-StandsIn :
      (rest : List SsmRelationshipClaim) (n : ℕ)
      → ((i : ℕ) → get_elem? claims (i + n) ≡ get_elem? rest i)
      → All (StandsIn claims) (hold_from n rest)
  unfolding hold_from
  hold_from-StandsIn [] n shift = tt
  hold_from-StandsIn (c ∷ cs) n shift =
      (ground (arith, shift 0), hold_from-StandsIn cs (suc n) (λ i. ground (arith, shift (suc i))))

module _ (ctx : WalkContext) (subject : CompileSubject) where
  -- A claim of the asset's pool that names `q` on the rung.
  pub record IsClaimFor (tier : LadderSourceKind) (q : Text) (h : Held) : Type 0 where
    pub target : h.claim.target_asset_id ≡ q
    pub rung : h.claim.ladder_source ≡ tier
    pub stands : StandsIn (claim_pool subject ctx) h

  candidates :
      (tier : LadderSourceKind) (cands : Map Text Held)
      → get (by_tier ctx subject) tier ≡ some cands
      → All (IsCandidate ctx (StandsIn (claim_pool subject ctx)) tier) cands
  candidates =
      index_candidates-AreCandidates ctx (StandsIn (claim_pool subject ctx)) (held_pool ctx subject)
        (hold_from-StandsIn (claim_pool subject ctx) (claim_pool subject ctx) 0 (λ i. ground arith))

  -- What a turn is, by what its rung says.
  pub data Turned (tier : LadderSourceKind) (w : Walk) (turn : Turn) : Type 0 where
    passes_by : ((r : Text) → ¬ Names ctx subject tier r) → turn ≡ next w → Turned tier w turn
    demotes :
        (q level_id : Text) (h : Held)
        → Folds ctx subject tier q (demote level_id)
        → IsClaimFor tier q h
        → turn ≡ fold_turn tier q h (demote level_id) w
        → Turned tier w turn
    wins :
        (q : Text) (h : Held)
        → Wins ctx subject tier q
        → IsClaimFor tier q h
        → turn ≡ stop (settle tier q h w)
        → Turned tier w turn
    ties :
        (ids : List Text)
        → IsTied ctx subject tier
        → ((r : Text) → includes ids r ≡ any (names ctx tier r) (held_pool ctx subject))
        → turn
          ≡ stop (record w {
            review_items = w.review_items ++ ambiguous_parent subject.asset_id tier ids ∷ [];
            status = unresolved;
          })
        → Turned tier w turn
    gaps :
        (q level_id : Text) (policy : MissingValuePolicy) (missing_on : List Text)
        → Folds ctx subject tier q (missing level_id policy missing_on)
        → turn
          ≡ stop (record w {
            status = status_for_policy policy;
            review_items = w.review_items ++ missing_items level_id missing_on;
          })
        → Turned tier w turn

  fold-Turned :
      (tier : LadderSourceKind) (q : Text) (h : Held) (w : Walk) (outcome : FoldOutcome)
      → Folds ctx subject tier q outcome
      → IsClaimFor tier q h
      → Turned tier w (fold_turn tier q h outcome w)
  unfolding fold_turn
  fold-Turned tier q h w keep f c = wins q h (kept f) c refl
  fold-Turned tier q h w (demote level_id) f c = demotes q level_id h f c refl
  fold-Turned tier q h w (missing level_id policy on) f c = gaps q level_id policy on f refl

  single-Turned :
      (tier : LadderSourceKind) (q : Text) (h : Held) (w : Walk)
      → IsSole ctx subject tier q
      → IsClaimFor tier q h
      → has ctx.subject_by_id q ≡ true
      → Turned tier w (single_turn ctx subject tier q h w)
  unfolding single_turn
  single-Turned tier q h w sole c known = elim (Bool-cases (tier == manual)) [
    | inl hand ↦ wins q h (by_hand sole ((source_beq_iff tier manual).0 hand)) c (rw hand)
    | inr other ↦
        let (parent, found) = get-some_of_has ctx.subject_by_id q known in
        let folds : Folds ctx subject tier q (fold_boundaries subject parent ctx.hierarchy) =
          record {
            sole = sole;
            not_manual = λ e. ground (arith, source_beq_iff tier manual);
            parent = parent;
            found = found;
            outcome_is = refl;
          } in
        rw (other, found, single_turn) (fold-Turned tier q h w _ folds c)
  ]

  listed_names :
      (tier : LadderSourceKind) (cands : Map Text Held) (p : Text)
      → get (by_tier ctx subject) tier ≡ some cands
      → includes (keys cands) p ≡ any (names ctx tier p) (held_pool ctx subject)
  listed_names tier cands p e = ground (arith, named_iff ctx subject tier p)

  candidates-Turned :
      (tier : LadderSourceKind) (w : Walk) (o : Option (Map Text Held))
      → get (by_tier ctx subject) tier ≡ o
      → Turned tier w (tier_turn ctx subject tier o w)
  unfolding tier_turn
  candidates-Turned tier w none e = passes_by (λ r. not-Names ctx subject tier r (rw e)) refl
  candidates-Turned tier w (some []) e = passes_by (λ r. not-Names ctx subject tier r (rw e)) refl
  candidates-Turned tier w (some ((q, h) ∷ [])) e =
      let c = (candidates tier _ e).0 in
      single-Turned tier q h w (IsSole-of_candidates ctx subject tier q h e)
        (record { target = c.target; rung = c.rung; stands = c.held }) c.known
  candidates-Turned tier w (some ((q, h) ∷ (r, k) ∷ more)) e =
      ties _ (IsTied-of_candidates ctx subject tier q r h k more e)
        (λ p. includes-sort compare_text (q ∷ r ∷ keys more) p ∙ listed_names tier _ p e) refl

  -- Every turn of the loop is one of these.
  pub turned :
      (tier : LadderSourceKind) (w : Walk)
      → Turned tier w (tier_turn ctx subject tier (get (by_tier ctx subject) tier) w)
  turned tier w = candidates-Turned tier w (get (by_tier ctx subject) tier) refl
