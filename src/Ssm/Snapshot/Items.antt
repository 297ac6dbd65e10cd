-- ===== src/Ssm/Snapshot/Items.antt =====
-- packages/ssm-compiler/src/compile.ts, `compileSnapshot`: the review items of the assets and the cycles.
use matchline.Base.{
  ◌≡◌, refl, ap, ◌∙◌, inl, inr, List, [], ◌∷◌, ◌++◌, true, false, includes, includes-sort, find,
  keys, Option, none, some, ◌==◌, Text, text_eq, compare_text, Map, get, has, has-put, put_new,
  get-put_new, has_of_get, sort, All, Bool-cases, text_beq_iff, some_injective, subst,
}
use mathlib.Core.List.{Mem}
use matchline.Domain.Ladder.{ParentLadderConfig}
use matchline.Domain.Review.{ReviewItem}
use matchline.Ssm.Fold.{CompileSubject}
use matchline.Ssm.Ladder.{WalkContext}
use matchline.Ssm.Resolve.{resolve_subject}
use matchline.Ssm.Snapshot.{
  CompileInput, Building, resolve_next, resolve_all, break_next, break_cycles, resolved_building,
  cycles_of, context_of, ordered_ids, ladder_of, no_nodes, subject_index, index_subjects,
  compile_snapshot,
}
use matchline.Ssm.Snapshot.Deduped.{kept_items}

All-split {ℓ κ} :
    {A : Type ℓ} (P : A → Type κ) (xs ys : List A) → All P (xs ++ ys) → All P xs × All P ys
All-split P [] ys h = (tt, h)
All-split P (x ∷ xs) ys (p, h) = let (k, l) = All-split P xs ys h in ((p, k), l)

module _ {κ} (P : ReviewItem → Type κ) where
  resolve_next-split :
      (ctx : WalkContext) (b : Building) (x : Text) (o : Option CompileSubject)
      → All P (resolve_next ctx b x o).review_items
      → All P b.review_items
        × ((s : CompileSubject) → o ≡ some s → All P (resolve_subject s ctx).review_items)
  resolve_next-split ctx b x none h = (h, λ s e. cc)
  resolve_next-split ctx b x (some t) h =
      let (k, l) = All-split P b.review_items (resolve_subject t ctx).review_items h in
      (k, λ s e. subst (λ u. All P (resolve_subject u ctx).review_items) (some_injective e) l)

  -- What holds of all items after the loop over the assets holds of the items of each asset.
  resolve_all-split :
      (ctx : WalkContext) (b : Building) (ids : List Text)
      → All P (resolve_all ctx b ids).review_items
      → All P b.review_items
        × ((x : Text) (s : CompileSubject)
            → includes ids x ≡ true
            → get ctx.subject_by_id x ≡ some s
            → All P (resolve_subject s ctx).review_items)
  unfolding resolve_all
  resolve_all-split ctx b [] h = (h, λ x s m e. cc)
  resolve_all-split ctx b (y ∷ ids) h =
      let (k, on) = resolve_all-split ctx (resolve_next ctx b y (get ctx.subject_by_id y)) ids h in
      let (k', own) = resolve_next-split ctx b y (get ctx.subject_by_id y) k in
      (
        k',
        λ x s m e. elim (Bool-cases (y == x)) [
          | inl same ↦ own s (ap (get ctx.subject_by_id) ((text_beq_iff y x).0 same) ∙ e)
          | inr other ↦ on x s (rw other at m) e
        ],
      )

  -- And what holds after the loop over the cycles, of the item of each cycle.
  break_cycles-split :
      (ladder : ParentLadderConfig) (b : Building) (cycles : List (List Text))
      → All P (break_cycles ladder b cycles).review_items
      → All P b.review_items
        × All (λ cycle. P (ReviewItem.structural_cycle (sort compare_text cycle))) cycles
  unfolding break_cycles
  break_cycles-split ladder b [] h = (h, tt)
  break_cycles-split ladder b (cycle ∷ cycles) h =
      let (k, on) = break_cycles-split ladder (break_next ladder b cycle) cycles h in
      let (k', own) = All-split P b.review_items (_ ∷ []) k in (k', (own.0, on))

index_subjects-keeps :
    (by_id : Map Text CompileSubject) (subjects : List CompileSubject) (x : Text)
    (s : CompileSubject)
    → get by_id x ≡ some s
    → get (index_subjects by_id subjects) x ≡ some s
unfolding index_subjects
index_subjects-keeps by_id [] x s e = e
index_subjects-keeps by_id (t ∷ subjects) x s e =
    index_subjects-keeps (put_new by_id t.asset_id t) subjects x s
      (get-put_new by_id t.asset_id x t ∙ rw (has_of_get by_id x s e) e)

still_new :
    (t : CompileSubject) (by_id : Map Text CompileSubject) (x : Text)
    → has by_id x ≡ false
    → (t.asset_id == x) ≡ false
    → has (put_new by_id t.asset_id t) x ≡ false
still_new t by_id x n other = elim (Bool-cases (has by_id t.asset_id)) [
  | inl old ↦ rw old n
  | inr new ↦ rw new (has-put by_id t.asset_id x t ∙ rw (other, n) refl)
]

-- The first asset of an id counts.
get-index_subjects :
    (by_id : Map Text CompileSubject) (subjects : List CompileSubject) (x : Text)
    (s : CompileSubject)
    → has by_id x ≡ false
    → find (λ t. t.asset_id == x) subjects ≡ some s
    → get (index_subjects by_id subjects) x ≡ some s
unfolding index_subjects
get-index_subjects by_id [] x s n e = cc
get-index_subjects by_id (t ∷ subjects) x s n e = elim (Bool-cases (t.asset_id == x)) [
  | inl own ↦
      let same : t ≡ s = some_injective (rw own at e) in
      let put_there : get (put_new by_id t.asset_id t) x ≡ some t =
        get-put_new by_id t.asset_id x t ∙ rw (n, own) refl in
      index_subjects-keeps (put_new by_id t.asset_id t) subjects x s (put_there ∙ ap some same)
  | inr other ↦
      get-index_subjects (put_new by_id t.asset_id t) subjects x s (still_new t by_id x n other)
        (rw other at e)
]

-- No review item is lost. For the first asset of each id, every item that its resolution raises is in the
-- snapshot, also after the items with equal keys were reduced to one; and so is the item of every cycle
-- that is found, with the ids of its members in order.
pub compile_snapshot-raised :
    (input : CompileInput) (asset_id : Text) (s : CompileSubject)
    → find (λ t. t.asset_id == asset_id) input.subjects ≡ some s
    → All
        (λ i. Mem i (compile_snapshot input).review_items)
        (resolve_subject s (context_of input)).review_items
      × All
          (λ cycle.
            Mem
              (ReviewItem.structural_cycle (sort compare_text cycle))
              (compile_snapshot input).review_items)
          (cycles_of input)
compile_snapshot-raised input asset_id s e =
    let InSnapshot : ReviewItem → Type 0 = λ i. Mem i (compile_snapshot input).review_items in
    let (items, cycles) =
      break_cycles-split InSnapshot (ladder_of input.ladder) (resolved_building input)
        (cycles_of input) (kept_items input) in
    let (_, own) =
      resolve_all-split InSnapshot (context_of input) no_nodes (ordered_ids input) items in
    let there : get (subject_index input) asset_id ≡ some s =
      get-index_subjects [] input.subjects asset_id s refl e in
    (
      own asset_id s
          (includes-sort compare_text (keys (subject_index input)) asset_id
            ∙ has_of_get (subject_index input) asset_id s there)
          there,
      cycles,
    )
