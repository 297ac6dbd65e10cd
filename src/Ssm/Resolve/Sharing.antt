-- ===== src/Ssm/Resolve/Sharing.antt =====
-- packages/ssm-compiler/src/compile.ts, `resolveSubject`: a parent that was not given by hand, and
-- the boundaries.
use matchline.Base.{
  ◌≡◌, ◌∙◌, ap, ◌≢◌, inl, inr, ◌⊎◌, true, none, some, Text, text_eq, get, includes, All, Bool-cases,
  subst,
}
use matchline.Domain.Ladder.{LadderSourceKind, manual}
use matchline.Ssm.Fold.{CompileSubject, boundary_levels, keep, fold_boundaries}
use matchline.Ssm.Fold.Boundary.{SharesLevel}
use matchline.Ssm.Fold.Spec.{shared_of_fold-keep}
use matchline.Ssm.Ladder.{WalkContext}
use matchline.Ssm.Resolve.{Walk, Winner, start_walk, final_walk, decision_of, resolve_subject}
use matchline.Ssm.Resolve.Rungs.{Folds, Wins, by_hand, kept}
use matchline.Ssm.Resolve.Endings.{Ended, exhausted, placed, tied, unknown}
use matchline.Ssm.Resolve.Decisions.{IsFree, final-Ended}
use matchline.Ssm.Resolve.Placement.{made_root_walk, start_winner}

module _ (ctx : WalkContext) (subject parent : CompileSubject) (q : Text)
    (found : get ctx.subject_by_id q ≡ some parent) where
  -- The winner `q` of a rung other than the manual one.
  record IsWinner (w : Walk) : Type 0 where
    named : (decision_of w).parent_asset_id ≡ some q
    not_manual : (decision_of w).ladder_source ≢ some manual

  named_of_none : (w : Walk) → w.winner ≡ none → (decision_of w).parent_asset_id ≡ none
  named_of_none w e = rw e

  not-winner : (w : Walk) → w.winner ≡ none → ¬ IsWinner w
  not-winner w e i = cc (named_of_none w e, i.named)

  named_of_winner :
      (w : Walk) (winner : Winner)
      → w.winner ≡ some winner
      → ((decision_of w).parent_asset_id ≡ some winner.parent_id)
        × ((decision_of w).ladder_source ≡ some winner.source)
  named_of_winner w winner e = (rw e, rw e)

  shares_of_fold :
      {tier : LadderSourceKind}
      → Folds ctx subject tier q keep
      → All (SharesLevel subject parent) (boundary_levels ctx.hierarchy)
  shares_of_fold f =
      let same : f.parent ≡ parent = cc (f.found, found) in
      shared_of_fold-keep subject parent ctx.hierarchy
        (subst (λ s. fold_boundaries subject s ctx.hierarchy ≡ keep) same f.outcome_is)

  shares_of_Wins :
      (tier : LadderSourceKind) (p : Text)
      → Wins ctx subject tier p
      → p ≡ q
      → tier ≢ manual
      → All (SharesLevel subject parent) (boundary_levels ctx.hierarchy)
  shares_of_Wins tier p (by_hand s m) e n = absurd (n m)
  shares_of_Wins tier p (kept f) e n =
      shares_of_fold (subst (λ r. Folds ctx subject tier r keep) e f)

  shares_of_end :
      Ended ctx subject ctx.ladder.tiers (start_walk ctx subject) (final_walk ctx subject)
      → IsWinner (final_walk ctx subject)
      → All (SharesLevel subject parent) (boundary_levels ctx.hierarchy)
  shares_of_end (exhausted all x y z) i =
      absurd (not-winner (final_walk ctx subject) (x ∙ start_winner ctx subject) i)
  shares_of_end (tied t ids r ti nm x y z) i =
      absurd (not-winner (final_walk ctx subject) (x ∙ start_winner ctx subject) i)
  shares_of_end (unknown t p l po on r f x y z) i =
      absurd (not-winner (final_walk ctx subject) (x ∙ start_winner ctx subject) i)
  shares_of_end (placed t p h r w c x y z) i =
      let (name, rung) =
        named_of_winner (final_walk ctx subject) (record { parent_id = p; source = t; held = h })
          x in
      shares_of_Wins t p w (cc (name, i.named)) (λ e. i.not_manual (rung ∙ ap some e))

  -- A parent that no person gave by hand agrees with its child on every enabled boundary: both state
  -- the value, and the values are equal.
  pub resolve_subject-shares :
      (resolve_subject subject ctx).node.parent.parent_asset_id ≡ some q
      → (resolve_subject subject ctx).node.parent.ladder_source ≢ some manual
      → All (SharesLevel subject parent) (boundary_levels ctx.hierarchy)
  unfolding resolve_subject
  resolve_subject-shares e n = go (Bool-cases (includes ctx.make_root_ids subject.asset_id))
    where
      go :
          (includes ctx.make_root_ids subject.asset_id ≡ true) ⊎ IsFree ctx subject
          → All (SharesLevel subject parent) (boundary_levels ctx.hierarchy)
      go (inl made_root) = absurd (
          not-winner (final_walk ctx subject) (made_root_walk ctx subject made_root).0
            (record { named = e; not_manual = n }))
      go (inr free) =
          shares_of_end (final-Ended ctx subject free) (record { named = e; not_manual = n })
