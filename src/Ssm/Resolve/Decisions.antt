-- ===== src/Ssm/Resolve/Decisions.antt =====
-- packages/ssm-compiler/src/compile.ts, `resolveSubject`: the rung that decides where an asset goes.
use matchline.Base.{◌≡◌, refl, sym, ◌∙◌, ◌≢◌, false, List, Text, text_eq, includes, All}
use matchline.Domain.Ladder.{LadderSourceKind, MissingValuePolicy}
use matchline.Domain.Snapshot.{ParentDecision}
use matchline.Ssm.Fold.{CompileSubject, FoldOutcome, keep, missing}
use matchline.Ssm.Ladder.{WalkContext}
use matchline.Ssm.Resolve.{start_walk, final_walk, resolve_subject}
use matchline.Ssm.Resolve.Rungs.{
  IsSole, Folds, Passed, unnamed, demoted, Wins, by_hand, kept, IsTied,
}
use matchline.Ssm.Resolve.Endings.{Reaches, at, past, Ended, walk-Ended}

module _ (ctx : WalkContext) (subject : CompileSubject) where
  -- A rung that ends the walk.
  pub data Decides (tier : LadderSourceKind) : Type 0 where
    winning : (q : Text) → Wins ctx subject tier q → Decides tier
    tying : IsTied ctx subject tier → Decides tier
    lacking :
        (q level_id : Text) (policy : MissingValuePolicy) (on : List Text)
        → Folds ctx subject tier q (missing level_id policy on)
        → Decides tier

  pub sole_unique :
      {tier : LadderSourceKind} {q r : Text}
      → IsSole ctx subject tier q
      → IsSole ctx subject tier r
      → q ≡ r
  sole_unique {q} s t = t.only q s.named

  pub Folds-unique :
      {tier : LadderSourceKind} {q r : Text} {a b : FoldOutcome}
      → Folds ctx subject tier q a
      → Folds ctx subject tier r b
      → a ≡ b
  Folds-unique f g = cc (sole_unique f.sole g.sole, f.found, g.found, f.outcome_is, g.outcome_is)

  pub not-IsTied_of_sole :
      {tier : LadderSourceKind} {q : Text} → IsSole ctx subject tier q → ¬ IsTied ctx subject tier
  not-IsTied_of_sole s t = t.apart (s.only t.one t.named_one ∙ sym (s.only t.other t.named_other))

  pub Wins-IsSole :
      {tier : LadderSourceKind} {q : Text} → Wins ctx subject tier q → IsSole ctx subject tier q
  Wins-IsSole (by_hand s e) = s
  Wins-IsSole (kept f) = f.sole

  pub not-Folds_of_Wins :
      {tier : LadderSourceKind} {q r : Text} {outcome : FoldOutcome}
      → Wins ctx subject tier q
      → Folds ctx subject tier r outcome
      → outcome ≢ keep
      → ⊥
  not-Folds_of_Wins (by_hand s e) f n = f.not_manual e
  not-Folds_of_Wins (kept g) f n = n (Folds-unique f g)

  pub not-Decides_of_Passed : {tier : LadderSourceKind} → Passed ctx subject tier → ¬ Decides tier
  not-Decides_of_Passed (unnamed n) (winning q w) = n q (Wins-IsSole w).named
  not-Decides_of_Passed (unnamed n) (tying t) = n t.one t.named_one
  not-Decides_of_Passed (unnamed n) (lacking q l p on f) = n q f.sole.named
  not-Decides_of_Passed (demoted r l f) (winning q w) = not-Folds_of_Wins w f (λ e. cc)
  not-Decides_of_Passed (demoted r l f) (tying t) = not-IsTied_of_sole f.sole t
  not-Decides_of_Passed (demoted r l f) (lacking q m p on g) = cc (Folds-unique f g)

  -- One rung at most is reached and decides.
  pub Reaches-unique :
      {tiers : List LadderSourceKind} {s t : LadderSourceKind}
      → Reaches ctx subject tiers s
      → Decides s
      → Reaches ctx subject tiers t
      → Decides t
      → s ≡ t
  Reaches-unique at d at e = refl
  Reaches-unique at d (past p r) e = absurd (not-Decides_of_Passed p d)
  Reaches-unique (past p r) d at e = absurd (not-Decides_of_Passed p e)
  Reaches-unique (past p r) d (past q s) e = Reaches-unique r d s e

  pub not-exhausted :
      {tiers : List LadderSourceKind} {t : LadderSourceKind}
      → Reaches ctx subject tiers t
      → Decides t
      → ¬ All (Passed ctx subject) tiers
  not-exhausted at d (p, ps) = not-Decides_of_Passed p d
  not-exhausted (past q r) d (p, ps) = not-exhausted r d ps

  -- The asset is not rooted by hand.
  abbrev pub IsFree : Type 0
  IsFree = includes ctx.make_root_ids subject.asset_id ≡ false

  abbrev pub decision : ParentDecision
  decision = (resolve_subject subject ctx).node.parent

  pub final-Ended :
      IsFree → Ended ctx subject ctx.ladder.tiers (start_walk ctx subject) (final_walk ctx subject)
  unfolding final_walk
  final-Ended free = rw free (walk-Ended ctx subject ctx.ladder.tiers (start_walk ctx subject))
