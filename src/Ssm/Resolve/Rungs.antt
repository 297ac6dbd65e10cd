-- ===== src/Ssm/Resolve/Rungs.antt =====
-- packages/ssm-compiler/src/compile.ts, `resolveSubject`: what one rung of the ladder says about an
-- asset, in terms of the claims of its pool.
use matchline.Base.{
  ◌≡◌, ◌≢◌, true, false, [], ◌∷◌, some, arith, Text, text_eq, text_beq_iff, Map, get, any,
}
use matchline.Domain.Ladder.{LadderSourceKind, manual, source_eq}
use matchline.Ssm.Fold.{CompileSubject, FoldOutcome, keep, demote, fold_boundaries}
use matchline.Ssm.Ladder.{WalkContext, Held, Candidates, index_candidates}
use matchline.Ssm.Ladder.Names.{names, is_candidate, is_candidate-eq-names, candidates-IsDistinct}
use matchline.Ssm.Resolve.{held_pool}

module _ (ctx : WalkContext) (subject : CompileSubject) where
  -- Some claim of the asset's pool names the known parent `q` on the rung.
  abbrev pub Names : LadderSourceKind → Text → Type 0
  Names tier q = any (names ctx tier q) (held_pool ctx subject) ≡ true

  -- The rung names one known parent and no other.
  pub record IsSole (tier : LadderSourceKind) (q : Text) : Type 0 where
    pub named : Names tier q
    pub only : (r : Text) → Names tier r → r ≡ q

  -- The rung names one parent, and the fold has this outcome for it.
  pub record Folds (tier : LadderSourceKind) (q : Text) (outcome : FoldOutcome) : Type 0 where
    pub sole : IsSole tier q
    pub not_manual : tier ≢ manual
    pub parent : CompileSubject
    pub found : get ctx.subject_by_id q ≡ some parent
    pub outcome_is : fold_boundaries subject parent ctx.hierarchy ≡ outcome

  -- The rung does not decide: it names nobody, or the fold demoted the one parent that it names.
  pub data Passed (tier : LadderSourceKind) : Type 0 where
    unnamed : ((r : Text) → ¬ Names tier r) → Passed tier
    demoted : (q level_id : Text) → Folds tier q (demote level_id) → Passed tier

  -- The rung decides on a parent: by hand, or because every enabled boundary agrees.
  pub data Wins (tier : LadderSourceKind) (q : Text) : Type 0 where
    by_hand : IsSole tier q → tier ≡ manual → Wins tier q
    kept : Folds tier q keep → Wins tier q

  -- The rung names two parents.
  pub record IsTied (tier : LadderSourceKind) : Type 0 where
    pub one : Text
    pub other : Text
    pub apart : one ≢ other
    pub named_one : Names tier one
    pub named_other : Names tier other

  -- The candidates of a rung, and the claims that the index keeps for them.
  abbrev pub by_tier : Candidates
  by_tier = index_candidates (held_pool ctx subject) ctx

  pub named_iff :
      (tier : LadderSourceKind) (q : Text)
      → is_candidate by_tier tier q ≡ any (names ctx tier q) (held_pool ctx subject)
  named_iff = is_candidate-eq-names ctx (held_pool ctx subject)

  pub not-Names :
      (tier : LadderSourceKind) (r : Text) → is_candidate by_tier tier r ≡ false → ¬ Names tier r
  not-Names tier r e n = ground (arith, named_iff tier r)

  pub IsSole-of_candidates :
      (tier : LadderSourceKind) (q : Text) (h : Held)
      → get by_tier tier ≡ some ((q, h) ∷ [])
      → IsSole tier q
  IsSole-of_candidates tier q h e = record {
    named = ground (arith, named_iff tier q, text_beq_iff q q);
    only = λ r n. ground (arith, named_iff tier r, text_beq_iff q r);
  }

  pub IsTied-of_candidates :
      (tier : LadderSourceKind) (q r : Text) (h k : Held) (more : Map Text Held)
      → get by_tier tier ≡ some ((q, h) ∷ (r, k) ∷ more)
      → IsTied tier
  IsTied-of_candidates tier q r h k more e =
      let d = candidates-IsDistinct ctx (held_pool ctx subject) tier _ e in
      record {
        one = q;
        other = r;
        apart = λ same. ground (arith, text_beq_iff r q);
        named_one = ground (arith, named_iff tier q, text_beq_iff q q);
        named_other = ground (arith, named_iff tier r, text_beq_iff r r);
      }
