-- ===== src/Ssm/Resolve/Endings.antt =====
-- packages/ssm-compiler/src/compile.ts, `resolveSubject`: the ways in which the walk of an asset ends.
use matchline.Base.{
  ◌≡◌, refl, ◌∙◌, List, [], ◌∷◌, ◌++◌, some, Text, text_eq, get, includes, any, All,
}
use matchline.Domain.Ladder.{LadderSourceKind, source_eq, MissingValuePolicy}
use matchline.Domain.Review.{ambiguous_parent}
use matchline.Domain.Snapshot.{resolved, unresolved}
use matchline.Ssm.Fold.{CompileSubject, demote, missing}
use matchline.Ssm.Ladder.{WalkContext, Held, status_for_policy}
use matchline.Ssm.Ladder.Names.{names}
use matchline.Ssm.Resolve.{held_pool, Walk, Turn, next, fold_turn, tier_turn, walk, missing_items}
use matchline.Ssm.Resolve.Rungs.{Folds, Passed, unnamed, demoted, Wins, IsTied, by_tier}
use matchline.Ssm.Resolve.Turns.{IsClaimFor, Turned, passes_by, demotes, wins, ties, gaps, turned}

module _ (ctx : WalkContext) (subject : CompileSubject) where
  -- The rung stands on the ladder, and every rung above it was passed.
  pub data Reaches : List LadderSourceKind → LadderSourceKind → Type 0 where
    at : {tier : LadderSourceKind} {tiers : List LadderSourceKind} → Reaches (tier ∷ tiers) tier
    past :
        {passed tier : LadderSourceKind} {tiers : List LadderSourceKind}
        → Passed ctx subject passed
        → Reaches tiers tier
        → Reaches (passed ∷ tiers) tier

  -- The walk left `w` for `w'`, over these rungs.
  pub data Ended (tiers : List LadderSourceKind) (w w' : Walk) : Type 0 where
    exhausted :
        All (Passed ctx subject) tiers
        → w'.winner ≡ w.winner
        → w'.status ≡ w.status
        → w'.review_items ≡ w.review_items
        → Ended tiers w w'
    placed :
        (tier : LadderSourceKind) (q : Text) (h : Held)
        → Reaches tiers tier
        → Wins ctx subject tier q
        → IsClaimFor ctx subject tier q h
        → w'.winner ≡ some (record { parent_id = q; source = tier; held = h })
        → w'.status ≡ resolved
        → w'.review_items ≡ w.review_items
        → Ended tiers w w'
    tied :
        (tier : LadderSourceKind) (ids : List Text)
        → Reaches tiers tier
        → IsTied ctx subject tier
        → ((r : Text) → includes ids r ≡ any (names ctx tier r) (held_pool ctx subject))
        → w'.winner ≡ w.winner
        → w'.status ≡ unresolved
        → w'.review_items ≡ w.review_items ++ ambiguous_parent subject.asset_id tier ids ∷ []
        → Ended tiers w w'
    unknown :
        (tier : LadderSourceKind) (q level_id : Text) (policy : MissingValuePolicy) (on : List Text)
        → Reaches tiers tier
        → Folds ctx subject tier q (missing level_id policy on)
        → w'.winner ≡ w.winner
        → w'.status ≡ status_for_policy policy
        → w'.review_items ≡ w.review_items ++ missing_items level_id on
        → Ended tiers w w'

  -- A rung that was passed stands in front of the rest.
  after-Passed :
      (tier : LadderSourceKind) (tiers : List LadderSourceKind) (w w₁ w' : Walk)
      → Passed ctx subject tier
      → w₁.winner ≡ w.winner
      → w₁.status ≡ w.status
      → w₁.review_items ≡ w.review_items
      → Ended tiers w₁ w'
      → Ended (tier ∷ tiers) w w'
  after-Passed tier tiers w w₁ w' p a b c (exhausted all x y z) =
      exhausted (p, all) (x ∙ a) (y ∙ b) (z ∙ c)
  after-Passed tier tiers w w₁ w' p a b c (placed t q h r wn cl x y z) =
      placed t q h (past p r) wn cl x y (z ∙ c)
  after-Passed tier tiers w w₁ w' p a b c (tied t ids r ti nm x y z) =
      tied t ids (past p r) ti nm (x ∙ a) y (rw (← c) z)
  after-Passed tier tiers w w₁ w' p a b c (unknown t q l po on r f x y z) =
      unknown t q l po on (past p r) f (x ∙ a) y (rw (← c) z)

  demotion_keeps :
      (tier : LadderSourceKind) (q level_id : Text) (h : Held) (w : Walk)
      → (w₁ : Walk) × (fold_turn tier q h (demote level_id) w ≡ next w₁)
        × (w₁.winner ≡ w.winner)
        × (w₁.status ≡ w.status)
        × (w₁.review_items ≡ w.review_items)
  unfolding fold_turn
  demotion_keeps tier q level_id h w = (_, refl, refl, refl, refl)

  pub walk-Ended :
      (tiers : List LadderSourceKind) (w : Walk)
      → Ended tiers w (walk ctx subject (by_tier ctx subject) tiers w)
  unfolding walk
  walk-Ended [] w = exhausted tt refl refl refl
  walk-Ended (tier ∷ tiers) w = go (turned ctx subject tier w) (walk-Ended tiers)
    where
      turn : Turn
      turn = tier_turn ctx subject tier (get (by_tier ctx subject) tier) w

      go :
          Turned ctx subject tier w turn
          → ((v : Walk) → Ended tiers v (walk ctx subject (by_tier ctx subject) tiers v))
          → Ended (tier ∷ tiers) w (walk ctx subject (by_tier ctx subject) (tier ∷ tiers) w)
      go (passes_by n e) ih =
          rw (e, walk) (after-Passed tier tiers w w _ (unnamed n) refl refl refl (ih w))
      go (demotes q l h f c e) ih =
          let (w₁, turn_is, a, b, d) = demotion_keeps tier q l h w in
          rw (e ∙ turn_is, walk) (after-Passed tier tiers w w₁ _ (demoted q l f) a b d (ih w₁))
      go (wins q h wn c e) ih = rw (e, walk) (placed tier q h at wn c refl refl refl)
      go (ties ids t nm e) ih = rw (e, walk) (tied tier ids at t nm refl refl refl)
      go (gaps q l po on f e) ih = rw (e, walk) (unknown tier q l po on at f refl refl refl)
