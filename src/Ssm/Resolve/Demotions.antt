-- ===== src/Ssm/Resolve/Demotions.antt =====
-- packages/ssm-compiler/src/compile.ts, `resolveSubject`: what becomes of a demoted parent.
use matchline.Base.{
  ◌≡◌, refl, sym, ◌∙◌, true, List, [], ◌∷◌, arith, Text, text_eq, text_beq_iff, Map, get, has,
  has-put, put_new, values, sort, sort-perm, subst,
}
use mathlib.Core.List.{Mem}
use mathlib.Core.List.Perm
use matchline.Domain.Ladder.{LadderSourceKind, source_eq}
use matchline.Domain.Claim.{RelationshipType}
use matchline.Domain.Snapshot.{ResolvedDependency}
use matchline.Ssm.Fold.{CompileSubject, demote}
use matchline.Ssm.Order.{compare_dependencies}
use matchline.Ssm.Ladder.{WalkContext, Held, dependency_key}
use matchline.Ssm.Ladder.Keys.{AreKeyed, put_new-AreKeyed, base_dependencies-AreKeyed, value_of_key}
use matchline.Ssm.Resolve.{
  Walk, Turn, next, stop, fold_turn, tier_turn, walk, start_walk, final_walk, resolve_subject,
  demotion_dependency,
}
use matchline.Ssm.Resolve.Rungs.{Folds, Passed, demoted, by_tier}
use matchline.Ssm.Resolve.Turns.{Turned, passes_by, demotes, wins, ties, gaps, turned}
use matchline.Ssm.Resolve.Endings.{Reaches, at, past}
use matchline.Ssm.Resolve.Decisions.{
  winning, tying, lacking, sole_unique, not-Decides_of_Passed, IsFree,
}

has-put_new :
    (m : Map Text ResolvedDependency) (k j : Text) (d : ResolvedDependency)
    → has m j ≡ true
    → has (put_new m k d) j ≡ true
has-put_new m k j d h = ground (arith, has-put m k j d)

has-put_new_self :
    (m : Map Text ResolvedDependency) (k : Text) (d : ResolvedDependency)
    → has (put_new m k d) k ≡ true
has-put_new_self m k d = ground (arith, has-put m k k d, text_beq_iff k k)

-- The walk after a turn.
abbrev walk_of : Turn → Walk
walk_of (next w) = w
walk_of (stop w) = w

-- The keys of the second walk's dependencies are keys of the first's, and all stand under their own.
record Grows (w w' : Walk) : Type 0 where
  keeps : (k : Text) → has w.dependencies k ≡ true → has w'.dependencies k ≡ true
  keyed : AreKeyed w.dependencies → AreKeyed w'.dependencies

same-Grows : (w w' : Walk) → w'.dependencies ≡ w.dependencies → Grows w w'
same-Grows w w' e = record { keeps = λ k h. rw e h; keyed = λ a. rw e a }

module _ (ctx : WalkContext) (subject : CompileSubject) where
  demotion-Grows :
      (tier : LadderSourceKind) (q level_id : Text) (h : Held) (w : Walk)
      → Grows w (walk_of (fold_turn tier q h (demote level_id) w))
  unfolding fold_turn
  demotion-Grows tier q level_id h w = record {
    keeps = λ k i. has-put_new w.dependencies _ k _ i;
    keyed = λ a.
        put_new-AreKeyed w.dependencies (dependency_key q RelationshipType.dependency)
          (demotion_dependency q h.claim) a refl;
  }

  turn-Grows :
      (tier : LadderSourceKind) (w : Walk) (turn : Turn)
      → Turned ctx subject tier w turn
      → Grows w (walk_of turn)
  turn-Grows tier w turn (passes_by n e) = rw e (same-Grows w w refl)
  turn-Grows tier w turn (demotes q l h f c e) = rw e (demotion-Grows tier q l h w)
  turn-Grows tier w turn (wins q h wn c e) = rw e (same-Grows w _ refl)
  turn-Grows tier w turn (ties ids t nm e) = rw e (same-Grows w _ refl)
  turn-Grows tier w turn (gaps q l po on f e) = rw e (same-Grows w _ refl)

  demotion_next :
      (tier : LadderSourceKind) (q level_id : Text) (h : Held) (w : Walk)
      → (w₁ : Walk) × (fold_turn tier q h (demote level_id) w ≡ next w₁)
        × (has w₁.dependencies (dependency_key q RelationshipType.dependency) ≡ true)
  unfolding fold_turn
  demotion_next tier q level_id h w = (
    _,
    refl,
    has-put_new_self w.dependencies (dependency_key q RelationshipType.dependency)
        (demotion_dependency q h.claim),
  )

  abbrev turn_at : LadderSourceKind → Walk → Turn
  turn_at tier w = tier_turn ctx subject tier (get (by_tier ctx subject) tier) w

  abbrev walked : List LadderSourceKind → Walk → Walk
  walked tiers w = walk ctx subject (by_tier ctx subject) tiers w

  walked_next :
      (tier : LadderSourceKind) (tiers : List LadderSourceKind) (w v : Walk)
      → turn_at tier w ≡ next v
      → walked (tier ∷ tiers) w ≡ walked tiers v
  unfolding walk
  walked_next tier tiers w v e = rw (e, walk) refl

  walked_stop :
      (tier : LadderSourceKind) (tiers : List LadderSourceKind) (w v : Walk)
      → turn_at tier w ≡ stop v
      → walked (tier ∷ tiers) w ≡ v
  unfolding walk
  walked_stop tier tiers w v e = rw (e, walk) refl

  -- The walk only adds dependencies.
  walk-Grows : (tiers : List LadderSourceKind) (w : Walk) → Grows w (walked tiers w)
  unfolding walk
  walk-Grows [] w = same-Grows w w refl
  walk-Grows (tier ∷ tiers) w =
      go (turn_at tier w) refl (turn-Grows tier w _ (turned ctx subject tier w)) (walk-Grows tiers)
    where
      go :
          (t : Turn)
          → turn_at tier w ≡ t
          → Grows w (walk_of t)
          → ((v : Walk) → Grows v (walked tiers v))
          → Grows w (walked (tier ∷ tiers) w)
      go (next v) e g ih = rw (walked_next tier tiers w v e) (record {
        keeps = λ k h. (ih v).keeps k (g.keeps k h);
        keyed = λ a. (ih v).keyed (g.keyed a);
      })
      go (stop v) e g ih = rw (walked_stop tier tiers w v e) g

  -- A rung that is passed does not stop the walk.
  Passed-next :
      (tier : LadderSourceKind) (w : Walk)
      → Passed ctx subject tier
      → (v : Walk) × (turn_at tier w ≡ next v)
  Passed-next tier w p = go (turned ctx subject tier w)
    where
      go : Turned ctx subject tier w (turn_at tier w) → (v : Walk) × (turn_at tier w ≡ next v)
      go (passes_by n e) = (w, e)
      go (demotes q l h f c e) = let (v, d, _) = demotion_next tier q l h w in (v, e ∙ d)
      go (wins q h wn c e) = absurd (not-Decides_of_Passed ctx subject p (winning q wn))
      go (ties ids t nm e) = absurd (not-Decides_of_Passed ctx subject p (tying t))
      go (gaps q l po on f e) = absurd (not-Decides_of_Passed ctx subject p (lacking q l po on f))

  abbrev HasDemoted : Text → Walk → Type 0
  HasDemoted q w = has w.dependencies (dependency_key q RelationshipType.dependency) ≡ true

  demoted_next :
      (tier : LadderSourceKind) (q level_id : Text) (w : Walk)
      → Folds ctx subject tier q (demote level_id)
      → (v : Walk) × (turn_at tier w ≡ next v) × HasDemoted q v
  demoted_next tier q level_id w f = go (turned ctx subject tier w)
    where
      passed : Passed ctx subject tier
      passed = demoted q level_id f

      go :
          Turned ctx subject tier w (turn_at tier w)
          → (v : Walk) × (turn_at tier w ≡ next v) × HasDemoted q v
      go (passes_by n e) = absurd (n q f.sole.named)
      go (demotes r l h g c e) =
          let (v, d, k) = demotion_next tier r l h w in
          (v, e ∙ d, subst (λ x. HasDemoted x v) (sole_unique ctx subject g.sole f.sole) k)
      go (wins r h wn c e) = absurd (not-Decides_of_Passed ctx subject passed (winning r wn))
      go (ties ids t nm e) = absurd (not-Decides_of_Passed ctx subject passed (tying t))
      go (gaps r l po on g e) =
          absurd (not-Decides_of_Passed ctx subject passed (lacking r l po on g))

  walk-HasDemoted :
      (tiers : List LadderSourceKind) (tier : LadderSourceKind) (q level_id : Text) (w : Walk)
      → Reaches ctx subject tiers tier
      → Folds ctx subject tier q (demote level_id)
      → HasDemoted q (walked tiers w)
  walk-HasDemoted [] tier q level_id w r f = elim r [ ]
  walk-HasDemoted (tier ∷ tiers) _ q level_id w at f =
      let (v, e, h) = demoted_next tier q level_id w f in
      rw (walked_next tier tiers w v e) ((walk-Grows tiers v).keeps _ h)
  walk-HasDemoted (above ∷ tiers) tier q level_id w (past p r) f =
      let (v, e) = Passed-next above w p in
      rw (walked_next above tiers w v e) (walk-HasDemoted tiers tier q level_id v r f)

  walked_final :
      IsFree ctx subject → final_walk ctx subject ≡ walked ctx.ladder.tiers (start_walk ctx subject)
  unfolding final_walk
  walked_final free = rw free

  -- A demoted parent is not lost: for each rung that the walk reaches and on which the fold demotes
  -- the one parent `q` that the rung names, the asset has a DEPENDENCY on `q`.
  pub resolve_subject-demoted :
      (tier : LadderSourceKind) (q level_id : Text)
      → IsFree ctx subject
      → Reaches ctx subject ctx.ladder.tiers tier
      → Folds ctx subject tier q (demote level_id)
      → (d : ResolvedDependency) × Mem d (resolve_subject subject ctx).node.dependencies
        × (d.parent_asset_id ≡ q)
        × (d.relationship_type ≡ RelationshipType.dependency)
  unfolding resolve_subject start_walk
  resolve_subject-demoted tier q level_id free r f =
      let keyed =
        (walk-Grows ctx.ladder.tiers (start_walk ctx subject)).keyed
          (base_dependencies-AreKeyed subject ctx) in
      let (d, i, a, b) =
        value_of_key (walked ctx.ladder.tiers (start_walk ctx subject)).dependencies q
          RelationshipType.dependency keyed
          (walk-HasDemoted ctx.ladder.tiers tier q level_id (start_walk ctx subject) r f) in
      (
        d,
        subst (λ w. Mem d (sort compare_dependencies (values w.dependencies)))
            (sym (walked_final free)) ((Perm.mem_iff (sort-perm compare_dependencies _)).1 i),
        a,
        b,
      )
