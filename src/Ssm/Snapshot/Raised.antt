-- ===== src/Ssm/Snapshot/Raised.antt =====
-- packages/ssm-compiler/src/compile.ts: the review items that `resolveSubject` raises.
use matchline.Base.{
  ◌≡◌, sym, inl, inr, List, [], ◌∷◌, Option, none, some, ◌==◌, Text, compare_text, Map, get, keys,
  sort, All, All-append, All-concat, List-cases, Bool-cases, includes, text_eq, includes-sort,
  text_beq_iff, arith,
}
use matchline.Domain.Ladder.{LadderSourceKind, manual, source_eq}
use matchline.Ssm.Fold.{CompileSubject, FoldOutcome, keep, demote, missing, fold_boundaries}
use matchline.Ssm.Ladder.{WalkContext, Held, Candidates, index_candidates}
use matchline.Ssm.Resolve.{
  Walk, Turn, next, stop, fold_turn, single_turn, tier_turn, walk, start_walk, final_walk,
  missing_items, held_pool, resolve_subject,
}
use matchline.Ssm.ReviewKey.Items.{IsRaised, tied, gap}

-- Sorting keeps a list from being empty.
pub sort-nonempty :
    (x : Text) (xs : List Text)
    → (y : Text) × (ys : List Text) × (sort compare_text (x ∷ xs) ≡ y ∷ ys)
sort-nonempty x xs = elim (List-cases (sort compare_text (x ∷ xs))) [
  | inr there ↦ there
  | inl e ↦ absurd (ground (arith, includes-sort compare_text (x ∷ xs) x, text_beq_iff x x, sym e))
]

missing_items-IsRaised :
    (level_id : Text) (on : List Text) → All IsRaised (missing_items level_id on)
missing_items-IsRaised level_id [] = tt
missing_items-IsRaised level_id (x ∷ on) = (gap x level_id, missing_items-IsRaised level_id on)

abbrev IsRaising : Walk → Type 0
IsRaising w = All IsRaised w.review_items

abbrev Raises : Turn → Type 0
Raises (next w) = All IsRaised w.review_items
Raises (stop w) = All IsRaised w.review_items

fold_turn-Raises :
    (t : LadderSourceKind) (p : Text) (h : Held) (f : FoldOutcome) (w : Walk)
    → All IsRaised w.review_items
    → Raises (fold_turn t p h f w)
unfolding fold_turn
fold_turn-Raises t p h keep w r = r
fold_turn-Raises t p h (demote level_id) w r = r
fold_turn-Raises t p h (missing level_id policy on) w r =
    All-append IsRaised w.review_items (missing_items level_id on) r
      (missing_items-IsRaised level_id on)

module _ (ctx : WalkContext) (subject : CompileSubject) where
  single_turn-Raises :
      (t : LadderSourceKind) (p : Text) (h : Held) (w : Walk)
      → All IsRaised w.review_items
      → Raises (single_turn ctx subject t p h w)
  unfolding single_turn
  single_turn-Raises t p h w r = elim (Bool-cases (t == manual)) [
    | inl by_hand ↦ rw by_hand r
    | inr read ↦ rw read (go (get ctx.subject_by_id p))
  ]
    where
      go :
          (o : Option CompileSubject)
          → Raises (elim o [
            | none ↦ next w
            | some s ↦ fold_turn t p h (fold_boundaries subject s ctx.hierarchy) w
          ])
      go none = r
      go (some s) = fold_turn-Raises t p h (fold_boundaries subject s ctx.hierarchy) w r

  tier_turn-Raises :
      (t : LadderSourceKind) (o : Option (Map Text Held)) (w : Walk)
      → All IsRaised w.review_items
      → Raises (tier_turn ctx subject t o w)
  unfolding tier_turn
  tier_turn-Raises t none w r = r
  tier_turn-Raises t (some []) w r = r
  tier_turn-Raises t (some ((p, h) ∷ [])) w r = single_turn-Raises t p h w r
  tier_turn-Raises t (some ((p, h) ∷ b ∷ more)) w r =
      let (y, ys, e) = sort-nonempty p (keys (b ∷ more)) in
      All-concat IsRaised w.review_items r (rw e (tied subject.asset_id t y ys))

  walk-IsRaised :
      (by_tier : Candidates) (tiers : List LadderSourceKind) (w : Walk)
      → All IsRaised w.review_items
      → All IsRaised (walk ctx subject by_tier tiers w).review_items
  unfolding walk
  walk-IsRaised by_tier [] w r = r
  walk-IsRaised by_tier (t ∷ tiers) w r =
      go (λ w' r'. walk-IsRaised by_tier tiers w' r') (tier_turn ctx subject t (get by_tier t) w)
        (tier_turn-Raises t (get by_tier t) w r)
    where
      go :
          ((w' : Walk)
            → All IsRaised w'.review_items
            → All IsRaised (walk ctx subject by_tier tiers w').review_items)
          → (turn : Turn) → Raises turn
          → IsRaising (elim turn [ stop w' ↦ w' | next w' ↦ walk ctx subject by_tier tiers w' ])
      go further (stop w') r' = r'
      go further (next w') r' = further w' r'

  final_walk-IsRaised : All IsRaised (final_walk ctx subject).review_items
  unfolding final_walk start_walk
  final_walk-IsRaised = elim (Bool-cases (includes ctx.make_root_ids subject.asset_id)) [
    | inl made ↦ rw made tt
    | inr free ↦ rw free (
        walk-IsRaised (index_candidates (held_pool ctx subject) ctx) ctx.ladder.tiers
          (start_walk ctx subject) tt)
  ]

  -- Every item that is raised for an asset is a tie with parents or a missing value.
  pub resolve_subject-IsRaised : All IsRaised (resolve_subject subject ctx).review_items
  unfolding resolve_subject
  resolve_subject-IsRaised = final_walk-IsRaised
