-- ===== src/Ssm/Resolve/Statuses.antt =====
-- packages/ssm-compiler/src/compile.ts, `resolveSubject`: the status of a decision.
use matchline.Base.{
  ◌≡◌, refl, sym, ◌∙◌, ◌↔◌, ◌≢◌, inl, inr, ◌⊎◌, true, none, some, Text, text_eq, includes,
  Bool-cases,
}
use matchline.Domain.Ladder.{MissingValuePolicy, unassigned_group, review, provisional_root}
use matchline.Domain.Snapshot.{resolved, root, ParentDecision}
use matchline.Ssm.Fold.{CompileSubject}
use matchline.Ssm.Ladder.{WalkContext, status_for_policy}
use matchline.Ssm.Resolve.{Walk, Winner, start_walk, final_walk, decision_of, resolve_subject}
use matchline.Ssm.Resolve.Endings.{Ended, exhausted, placed, tied, unknown}
use matchline.Ssm.Resolve.Decisions.{IsFree, final-Ended}
use matchline.Ssm.Resolve.Placement.{made_root_walk, start_winner}

-- The decision is resolved exactly if it has a parent.
abbrev pub IsSettled : ParentDecision → Type 0
IsSettled d = (d.status ≡ resolved) ↔ ((q : Text) × (d.parent_asset_id ≡ some q))

IsSettled-of_none : (w : Walk) → w.winner ≡ none → w.status ≢ resolved → IsSettled (decision_of w)
IsSettled-of_none w e n = rw e (λ r. absurd (n r), λ (q, f). cc)

IsSettled-of_winner :
    (w : Walk) (winner : Winner)
    → w.winner ≡ some winner
    → w.status ≡ resolved
    → IsSettled (decision_of w)
IsSettled-of_winner w winner e r = rw e (λ _. (winner.parent_id, refl), λ _. r)

status_for_policy-unsettled : (p : MissingValuePolicy) → status_for_policy p ≢ resolved
status_for_policy-unsettled review e = cc
status_for_policy-unsettled provisional_root e = cc
status_for_policy-unsettled unassigned_group e = cc

module _ (ctx : WalkContext) (subject : CompileSubject) where
  start_status : (start_walk ctx subject).status ≡ root
  unfolding start_walk
  start_status = refl

  IsSettled-of_Ended :
      Ended ctx subject ctx.ladder.tiers (start_walk ctx subject) (final_walk ctx subject)
      → IsSettled (decision_of (final_walk ctx subject))
  IsSettled-of_Ended (exhausted all x y z) =
      IsSettled-of_none (final_walk ctx subject) (x ∙ start_winner ctx subject)
        (λ e. cc (y, start_status, e))
  IsSettled-of_Ended (tied t ids r ti nm x y z) =
      IsSettled-of_none (final_walk ctx subject) (x ∙ start_winner ctx subject) (λ e. cc (y, e))
  IsSettled-of_Ended (unknown t p l po on r f x y z) =
      IsSettled-of_none (final_walk ctx subject) (x ∙ start_winner ctx subject)
        (λ e. status_for_policy-unsettled po (sym y ∙ e))
  IsSettled-of_Ended (placed t p h r w c x y z) =
      IsSettled-of_winner (final_walk ctx subject) (record { parent_id = p; source = t; held = h })
        x y

  -- A decision is `resolved` exactly if it names a parent.
  pub resolve_subject-IsSettled : IsSettled (resolve_subject subject ctx).node.parent
  unfolding resolve_subject
  resolve_subject-IsSettled = go (Bool-cases (includes ctx.make_root_ids subject.asset_id))
    where
      go :
          (includes ctx.make_root_ids subject.asset_id ≡ true) ⊎ IsFree ctx subject
          → IsSettled (decision_of (final_walk ctx subject))
      go (inl made_root) =
          let (x, y, z) = made_root_walk ctx subject made_root in
          IsSettled-of_none (final_walk ctx subject) x (λ e. cc (y, e))
      go (inr free) = IsSettled-of_Ended (final-Ended ctx subject free)
