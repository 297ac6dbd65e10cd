-- ===== src/Ssm/Resolve/Placement.antt =====
-- packages/ssm-compiler/src/compile.ts, `resolveSubject`: the parent, the tie, the unknown and the
-- root.
use matchline.Base.{
  ◌≡◌, refl, ◌∙◌, ap, ◌↔◌, inl, inr, ◌⊎◌, true, List, [], ◌∷◌, none, some, Text, text_eq, includes,
  any, All, Bool-cases, subst,
}
use matchline.Domain.Ladder.{LadderSourceKind, MissingValuePolicy}
use matchline.Domain.Review.{ReviewItem, ambiguous_parent, missing_boundary}
use matchline.Domain.Snapshot.{Status, resolved, root, unresolved}
use matchline.Ssm.Fold.{CompileSubject, FoldOutcome, keep, demote, missing}
use matchline.Ssm.Ladder.{WalkContext, Held, status_for_policy}
use matchline.Ssm.Ladder.Names.{names}
use matchline.Ssm.Resolve.{
  Walk, Winner, start_walk, final_walk, missing_items, held_pool, decision_of, resolve_subject,
}
use matchline.Ssm.Resolve.Rungs.{Folds, Passed, Wins, IsTied}
use matchline.Ssm.Resolve.Turns.{IsClaimFor}
use matchline.Ssm.Resolve.Endings.{Reaches, Ended, exhausted, placed, tied, unknown}
use matchline.Ssm.Resolve.Decisions.{
  Decides, winning, tying, lacking, sole_unique, Wins-IsSole, Folds-unique, not-IsTied_of_sole,
  not-Folds_of_Wins, Reaches-unique, not-exhausted, IsFree, decision, final-Ended,
}

-- What a level's policy makes of an asset that has no value for it.
abbrev policy_status : MissingValuePolicy → Status
policy_status MissingValuePolicy.review = unresolved
policy_status MissingValuePolicy.provisional_root = Status.provisional_root
policy_status MissingValuePolicy.unassigned_group = root

-- One review item for each asset that lacks the value.
abbrev gap_list : Text → List Text → List ReviewItem
gap_list level_id [] = []
gap_list level_id (x ∷ on) = missing_boundary x level_id ∷ gap_list level_id on

status-policy : (policy : MissingValuePolicy) → status_for_policy policy ≡ policy_status policy
status-policy MissingValuePolicy.review = refl
status-policy MissingValuePolicy.provisional_root = refl
status-policy MissingValuePolicy.unassigned_group = refl

missing_items-gap_list :
    (level_id : Text) (on : List Text) → missing_items level_id on ≡ gap_list level_id on
missing_items-gap_list level_id [] = refl
missing_items-gap_list level_id (x ∷ on) =
    ap (◌∷◌ (missing_boundary x level_id)) (missing_items-gap_list level_id on)

module _ (ctx : WalkContext) (subject : CompileSubject) where
  -- The first rung that does not pass names `q` alone, and nothing keeps the asset from it.
  pub record IsStrongest (tier : LadderSourceKind) (q : Text) : Type 0 where
    pub free : IsFree ctx subject
    pub reached : Reaches ctx subject ctx.ladder.tiers tier
    pub wins : Wins ctx subject tier q

  parent_of_winner :
      (w : Walk) (winner : Winner)
      → w.winner ≡ some winner
      → (decision_of w).parent_asset_id ≡ some winner.parent_id
  parent_of_winner w winner e = rw e

  parent_of_none : (w : Walk) → w.winner ≡ none → (decision_of w).parent_asset_id ≡ none
  parent_of_none w e = rw e

  pub start_winner : (start_walk ctx subject).winner ≡ none
  unfolding start_walk
  start_winner = refl

  IsStrongest-of_parent :
      (q : Text)
      → IsFree ctx subject
      → Ended ctx subject ctx.ladder.tiers (start_walk ctx subject) (final_walk ctx subject)
      → (decision_of (final_walk ctx subject)).parent_asset_id ≡ some q
      → (tier : LadderSourceKind) × IsStrongest tier q
  IsStrongest-of_parent q free (exhausted all x y z) e =
      cc (parent_of_none (final_walk ctx subject) (x ∙ start_winner))
  IsStrongest-of_parent q free (tied t ids r ti nm x y z) e =
      cc (parent_of_none (final_walk ctx subject) (x ∙ start_winner))
  IsStrongest-of_parent q free (unknown t p l po on r f x y z) e =
      cc (parent_of_none (final_walk ctx subject) (x ∙ start_winner))
  IsStrongest-of_parent q free (placed t p h r wn c x y z) e =
      let same : p ≡ q = cc (parent_of_winner (final_walk ctx subject) _ x) in
      (t, record { free = free; reached = r; wins = subst (Wins ctx subject t) same wn })

  pub made_root_walk :
      includes ctx.make_root_ids subject.asset_id ≡ true
      → ((final_walk ctx subject).winner ≡ none)
        × ((final_walk ctx subject).status ≡ root)
        × ((final_walk ctx subject).review_items ≡ [])
  unfolding final_walk start_walk
  made_root_walk e = (rw e, rw e, rw e)

  -- The end of a walk that a given rung decides.
  data EndedAt (tier : LadderSourceKind) : Type 0 where
    placed_at :
        (q : Text) (h : Held)
        → Wins ctx subject tier q
        → IsClaimFor ctx subject tier q h
        → (final_walk ctx subject).winner ≡ some (record { parent_id = q; source = tier; held = h })
        → (final_walk ctx subject).status ≡ resolved
        → (final_walk ctx subject).review_items ≡ []
        → EndedAt tier
    tied_at :
        (ids : List Text)
        → IsTied ctx subject tier
        → ((r : Text) → includes ids r ≡ any (names ctx tier r) (held_pool ctx subject))
        → (final_walk ctx subject).winner ≡ none
        → (final_walk ctx subject).status ≡ unresolved
        → (final_walk ctx subject).review_items ≡ ambiguous_parent subject.asset_id tier ids ∷ []
        → EndedAt tier
    unknown_at :
        (q level_id : Text) (policy : MissingValuePolicy) (on : List Text)
        → Folds ctx subject tier q (missing level_id policy on)
        → (final_walk ctx subject).winner ≡ none
        → (final_walk ctx subject).status ≡ status_for_policy policy
        → (final_walk ctx subject).review_items ≡ missing_items level_id on
        → EndedAt tier

  ended_at :
      (tier : LadderSourceKind)
      → Reaches ctx subject ctx.ladder.tiers tier
      → Decides ctx subject tier
      → Ended ctx subject ctx.ladder.tiers (start_walk ctx subject) (final_walk ctx subject)
      → EndedAt tier
  unfolding start_walk
  ended_at tier r d (exhausted all x y z) = absurd (not-exhausted ctx subject r d all)
  ended_at tier r d (placed t q h s wn c x y z) =
      subst EndedAt (Reaches-unique ctx subject s (winning q wn) r d) (placed_at q h wn c x y z)
  ended_at tier r d (tied t ids s ti nm x y z) =
      subst EndedAt (Reaches-unique ctx subject s (tying ti) r d) (tied_at ids ti nm x y z)
  ended_at tier r d (unknown t q l po on s f x y z) =
      subst EndedAt (Reaches-unique ctx subject s (lacking q l po on f) r d)
        (unknown_at q l po on f x y z)

  parent_at_strongest :
      {tier : LadderSourceKind} {q : Text}
      → Wins ctx subject tier q
      → EndedAt tier
      → (decision_of (final_walk ctx subject)).parent_asset_id ≡ some q
  parent_at_strongest w (placed_at p h v c x y z) =
      parent_of_winner (final_walk ctx subject) _ x
      ∙ ap some (sole_unique ctx subject (Wins-IsSole ctx subject v) (Wins-IsSole ctx subject w))
  parent_at_strongest w (tied_at ids t nm x y z) =
      absurd (not-IsTied_of_sole ctx subject (Wins-IsSole ctx subject w) t)
  parent_at_strongest w (unknown_at q l po on f x y z) =
      absurd (not-Folds_of_Wins ctx subject w f (λ e. cc))

  -- `resolveSubject` gives an asset the parent `q` exactly if no manual instruction roots it and, on
  -- the first rung of the ladder that was not passed, `q` is the one known parent that the asset's
  -- claims name, and it was named by hand or agrees with the asset on every enabled boundary. A rung
  -- is passed if its claims name no known parent, or if the fold demotes the one that they name.
  pub resolve_subject-parent_iff :
      (q : Text)
      → ((resolve_subject subject ctx).node.parent.parent_asset_id ≡ some q)
        ↔ ((tier : LadderSourceKind) × IsStrongest tier q)
  unfolding resolve_subject
  resolve_subject-parent_iff q = (forth (Bool-cases _), λ (tier, s). back s)
    where
      forth :
          (includes ctx.make_root_ids subject.asset_id ≡ true) ⊎ IsFree ctx subject
          → (decision_of (final_walk ctx subject)).parent_asset_id ≡ some q
          → (tier : LadderSourceKind) × IsStrongest tier q
      forth (inl made_root) e =
          cc (parent_of_none (final_walk ctx subject) (made_root_walk made_root).0)
      forth (inr free) e = IsStrongest-of_parent q free (final-Ended ctx subject free) e

      back :
          {tier : LadderSourceKind}
          → IsStrongest tier q
          → (decision_of (final_walk ctx subject)).parent_asset_id ≡ some q
      back {tier} s =
          parent_at_strongest s.wins
            (ended_at tier s.reached (winning q s.wins) (final-Ended ctx subject s.free))

  -- The asset has no parent, with this status and these items for review.
  abbrev pub IsUnplaced : Status → List ReviewItem → Type 0
  IsUnplaced status items =
      (decision ctx subject).parent_asset_id ≡ none
      × (decision ctx subject).ladder_source ≡ none
      × (decision ctx subject).winning_claim ≡ none
      × (decision ctx subject).status ≡ status
      × (resolve_subject subject ctx).review_items ≡ items

  unplaced_walk :
      (w : Walk)
      → w.winner ≡ none
      → ((decision_of w).parent_asset_id ≡ none)
        × ((decision_of w).ladder_source ≡ none)
        × ((decision_of w).winning_claim ≡ none)
        × ((decision_of w).status ≡ w.status)
  unplaced_walk w e = (rw e, rw e, rw e, rw e)

  unplaced :
      (status : Status) (items : List ReviewItem)
      → (final_walk ctx subject).winner ≡ none
      → (final_walk ctx subject).status ≡ status
      → (final_walk ctx subject).review_items ≡ items
      → IsUnplaced status items
  unfolding resolve_subject
  unplaced status items x y z =
      let (p, l, c, s) = unplaced_walk (final_walk ctx subject) x in (p, l, c, s ∙ y, z)

  tied_result :
      {tier : LadderSourceKind}
      → IsTied ctx subject tier
      → EndedAt tier
      → (ids : List Text) × IsUnplaced unresolved (ambiguous_parent subject.asset_id tier ids ∷ [])
        × ((r : Text) → includes ids r ≡ any (names ctx tier r) (held_pool ctx subject))
  tied_result t (placed_at q h w c x y z) =
      absurd (not-IsTied_of_sole ctx subject (Wins-IsSole ctx subject w) t)
  tied_result t (tied_at ids _ nm x y z) = (ids, unplaced unresolved _ x y z, nm)
  tied_result t (unknown_at q l po on f x y z) = absurd (not-IsTied_of_sole ctx subject f.sole t)

  -- A tie stops the ladder. If the first rung that was not passed names two known parents, the asset
  -- is unresolved with no parent, whatever weaker rungs say, and one review item lists exactly the
  -- parents that the rung names.
  pub resolve_subject-tied :
      (tier : LadderSourceKind)
      → IsFree ctx subject
      → Reaches ctx subject ctx.ladder.tiers tier
      → IsTied ctx subject tier
      → (ids : List Text) × IsUnplaced unresolved (ambiguous_parent subject.asset_id tier ids ∷ [])
        × ((r : Text) → includes ids r ≡ any (names ctx tier r) (held_pool ctx subject))
  resolve_subject-tied tier free r t =
      tied_result t (ended_at tier r (tying t) (final-Ended ctx subject free))

  abbrev gap_status : FoldOutcome → Status
  gap_status keep = root
  gap_status (demote level_id) = root
  gap_status (missing level_id policy on) = status_for_policy policy

  abbrev gap_items : FoldOutcome → List ReviewItem
  gap_items keep = []
  gap_items (demote level_id) = []
  gap_items (missing level_id policy on) = missing_items level_id on

  unknown_result :
      {tier : LadderSourceKind} {q level_id : Text} {policy : MissingValuePolicy} {on : List Text}
      → Folds ctx subject tier q (missing level_id policy on)
      → EndedAt tier
      → IsUnplaced (status_for_policy policy) (missing_items level_id on)
  unknown_result f (placed_at q h w c x y z) = absurd (not-Folds_of_Wins ctx subject w f (λ e. cc))
  unknown_result f (tied_at ids t nm x y z) = absurd (not-IsTied_of_sole ctx subject f.sole t)
  unknown_result f (unknown_at q l po on g x y z) =
      subst (λ o. IsUnplaced (gap_status o) (gap_items o)) (Folds-unique ctx subject g f)
        (unplaced _ _ x y z)

  -- An unknown boundary stops the ladder. If the fold of the one parent that the first rung not
  -- passed names finds no difference but a boundary value missing, the asset gets no parent, neither
  -- this one nor a weaker rung's; its status is unresolved, provisional root or root, as the level's
  -- policy is review, provisional root or unassigned group, and each asset that lacks the value gets
  -- a review item of its own, in order.
  pub resolve_subject-unknown :
      (tier : LadderSourceKind) (q level_id : Text) (policy : MissingValuePolicy) (on : List Text)
      → IsFree ctx subject
      → Reaches ctx subject ctx.ladder.tiers tier
      → Folds ctx subject tier q (missing level_id policy on)
      → IsUnplaced (policy_status policy) (gap_list level_id on)
  resolve_subject-unknown tier q level_id policy on free r f =
      let u : IsUnplaced (status_for_policy policy) (missing_items level_id on) =
        unknown_result f
          (ended_at tier r (lacking q level_id policy on f) (final-Ended ctx subject free)) in
      subst (IsUnplaced (policy_status policy)) (missing_items-gap_list level_id on)
        (subst (λ st. IsUnplaced st (missing_items level_id on)) (status-policy policy) u)

  rooted_result :
      All (Passed ctx subject) ctx.ladder.tiers
      → Ended ctx subject ctx.ladder.tiers (start_walk ctx subject) (final_walk ctx subject)
      → IsUnplaced root []
  unfolding start_walk
  rooted_result all (exhausted _ x y z) = unplaced root [] x y z
  rooted_result all (placed t q h r w c x y z) =
      absurd (not-exhausted ctx subject r (winning q w) all)
  rooted_result all (tied t ids r ti nm x y z) = absurd (not-exhausted ctx subject r (tying ti) all)
  rooted_result all (unknown t q l po on r f x y z) =
      absurd (not-exhausted ctx subject r (lacking q l po on f) all)

  -- An asset that a manual instruction roots, or for which every rung of the ladder was passed, is a
  -- root with nothing to review.
  pub resolve_subject-rooted :
      (includes ctx.make_root_ids subject.asset_id ≡ true)
        ⊎ All (Passed ctx subject) ctx.ladder.tiers
      → IsUnplaced root []
  resolve_subject-rooted (inl made_root) =
      let (x, y, z) = made_root_walk made_root in unplaced root [] x y z
  resolve_subject-rooted (inr all) =
      elim (Bool-cases (includes ctx.make_root_ids subject.asset_id)) [
        | inl made_root ↦ let (x, y, z) = made_root_walk made_root in unplaced root [] x y z
        | inr free ↦ rooted_result all (final-Ended ctx subject free)
      ]
