-- ===== src/Ssm/Snapshot/Deduped.antt =====
-- packages/ssm-compiler/src/compile.ts, `compileSnapshot`: equal review items are one in a snapshot.
use matchline.Base.{
  ◌≡◌, refl, sym, ap, ◌∙◌, inl, inr, List, [], ◌∷◌, Option, none, some, ◌==◌, Text, text_eq,
  compare_text, Map, get, has, put_new, put_of_new, get-put_new, get-some_of_has, has_of_get,
  values, sort, All, All-append, All-concat, All-sort, All-of_sort, All-imp, Bool-cases, arith,
  text_beq_iff, some_injective, subst,
}
use mathlib.Core.List.{Mem, mem-cons_self, mem-cons_of_mem}
use matchline.Domain.Ladder.{ParentLadderConfig}
use matchline.Domain.Review.{ReviewItem}
use matchline.Domain.Snapshot.{ResolvedAssetNode}
use matchline.Ssm.Fold.{CompileSubject}
use matchline.Ssm.Ladder.{WalkContext}
use matchline.Ssm.Resolve.{resolve_subject}
use matchline.Ssm.ReviewKey.{review_key, compare_review_items}
use matchline.Ssm.ReviewKey.Items.{IsRaised, cyclic, review_key-eq_iff}
use matchline.Ssm.Snapshot.{
  CompileInput, Building, resolve_next, resolve_all, break_next, break_cycles, dedupe,
  final_review_items, resolved_building, broken_building, cycles_of, context_of, ordered_ids,
  ladder_of, no_nodes, compile_snapshot,
}
use matchline.Ssm.Snapshot.Raised.{resolve_subject-IsRaised, sort-nonempty}
use matchline.Ssm.Snapshot.Breaking.{IsKnownCycle}
use matchline.Ssm.Snapshot.Acyclic.{cycles-known}

resolve_next-IsRaised :
    (ctx : WalkContext) (b : Building) (x : Text) (o : Option CompileSubject)
    → All IsRaised b.review_items
    → All IsRaised (resolve_next ctx b x o).review_items
resolve_next-IsRaised ctx b x none r = r
resolve_next-IsRaised ctx b x (some s) r =
    All-append IsRaised b.review_items (resolve_subject s ctx).review_items r
      (resolve_subject-IsRaised ctx s)

resolve_all-IsRaised :
    (ctx : WalkContext) (b : Building) (ids : List Text)
    → All IsRaised b.review_items
    → All IsRaised (resolve_all ctx b ids).review_items
unfolding resolve_all
resolve_all-IsRaised ctx b [] r = r
resolve_all-IsRaised ctx b (x ∷ ids) r =
    resolve_all-IsRaised ctx (resolve_next ctx b x (get ctx.subject_by_id x)) ids
      (resolve_next-IsRaised ctx b x (get ctx.subject_by_id x) r)

cycle-IsRaised :
    (nodes : Map Text ResolvedAssetNode) (cycle : List Text)
    → IsKnownCycle nodes cycle
    → IsRaised (ReviewItem.structural_cycle (sort compare_text cycle))
cycle-IsRaised nodes cycle (x, xs, e, _) =
    let (y, ys, s) = sort-nonempty x xs in rw (e, s) (cyclic y ys)

break_cycles-IsRaised :
    (ladder : ParentLadderConfig) (b : Building) (nodes : Map Text ResolvedAssetNode)
    (cycles : List (List Text))
    → All (IsKnownCycle nodes) cycles
    → All IsRaised b.review_items
    → All IsRaised (break_cycles ladder b cycles).review_items
unfolding break_cycles
break_cycles-IsRaised ladder b nodes [] _ r = r
break_cycles-IsRaised ladder b nodes (cycle ∷ cycles) (k, ks) r =
    break_cycles-IsRaised ladder (break_next ladder b cycle) nodes cycles ks
      (All-concat IsRaised b.review_items r (cycle-IsRaised nodes cycle k))

broken_building-IsRaised :
    (input : CompileInput) → All IsRaised (broken_building input).review_items
broken_building-IsRaised input =
    break_cycles-IsRaised (ladder_of input.ladder) (resolved_building input)
      (resolved_building input).nodes (cycles_of input) (cycles-known input)
      (resolve_all-IsRaised (context_of input) no_nodes (ordered_ids input) tt)

-- Each item stands under its key, and is one of those that are raised.
abbrev IsKept : (Text × ReviewItem) → Type 0
IsKept e = (e.0 ≡ review_key e.1) × IsRaised e.1

found-IsKept :
    (m : Map Text ReviewItem) (k : Text) (v : ReviewItem)
    → All IsKept m
    → get m k ≡ some v
    → (k ≡ review_key v) × IsRaised v
found-IsKept [] k v _ e = cc
found-IsKept ((j, w) ∷ m) k v ((p, r), all) e = elim (Bool-cases (j == k)) [
  | inl here ↦ (
    sym ((text_beq_iff j k).0 here) ∙ p ∙ ap review_key (some_injective (rw here at e)),
    subst IsRaised (some_injective (rw here at e)) r,
  )
  | inr there ↦ found-IsKept m k v all (rw there at e)
]

put_new-IsKept :
    (m : Map Text ReviewItem) (item : ReviewItem)
    → All IsKept m
    → IsRaised item
    → All IsKept (put_new m (review_key item) item)
put_new-IsKept m item all r = elim (Bool-cases (has m (review_key item))) [
  | inl old ↦ rw old all
  | inr new ↦ rw (new, put_of_new m (review_key item) item new) (All-concat IsKept m all (refl, r))
]

-- An item is found under its key after it is put there, since only the same item can have been there.
get-put_item :
    (m : Map Text ReviewItem) (item : ReviewItem)
    → All IsKept m
    → IsRaised item
    → get (put_new m (review_key item) item) (review_key item) ≡ some item
get-put_item m item all r = elim (Bool-cases (has m (review_key item))) [
  | inl old ↦
      let (v, e) = get-some_of_has m (review_key item) old in
      let (k, s) = found-IsKept m (review_key item) v all e in
      rw old (e ∙ ap some (sym ((review_key-eq_iff r s).0 k)))
  | inr new ↦ ground (
    arith,
    get-put_new m (review_key item) (review_key item) item,
    text_beq_iff (review_key item) (review_key item),
  )
]

dedupe-get :
    (m : Map Text ReviewItem) (items : List ReviewItem) (k : Text) (v : ReviewItem)
    → get m k ≡ some v
    → get (dedupe m items) k ≡ some v
unfolding dedupe
dedupe-get m [] k v e = e
dedupe-get m (item ∷ items) k v e =
    dedupe-get (put_new m (review_key item) item) items k v
      (get-put_new m (review_key item) k item ∙ rw (has_of_get m k v e) e)

dedupe-keeps :
    (m : Map Text ReviewItem) (items : List ReviewItem)
    → All IsKept m
    → All IsRaised items
    → All (λ i. get (dedupe m items) (review_key i) ≡ some i) items
unfolding dedupe
dedupe-keeps m [] all _ = tt
dedupe-keeps m (item ∷ items) all (r, rs) = (
  dedupe-get (put_new m (review_key item) item) items (review_key item) item
      (get-put_item m item all r),
  dedupe-keeps (put_new m (review_key item) item) items (put_new-IsKept m item all r) rs,
)

mem_of_get :
    (m : Map Text ReviewItem) (k : Text) (v : ReviewItem) → get m k ≡ some v → Mem v (values m)
mem_of_get [] k v e = cc
mem_of_get ((j, w) ∷ m) k v e = elim (Bool-cases (j == k)) [
  | inl here ↦ subst (λ x. Mem x (w ∷ values m)) (some_injective (rw here at e)) mem-cons_self
  | inr there ↦ mem-cons_of_mem w (mem_of_get m k v (rw there at e))
]

-- What is in the list before the equal keys are reduced is in the snapshot.
pub kept_items :
    (input : CompileInput)
    → All (λ i. Mem i (compile_snapshot input).review_items) (broken_building input).review_items
unfolding compile_snapshot final_review_items
kept_items input =
    let raised = (broken_building input).review_items in
    let sorted = sort compare_review_items raised in
    All-of_sort compare_review_items (λ i. Mem i (compile_snapshot input).review_items) raised
      (All-imp {P = λ i. get (dedupe [] sorted) (review_key i) ≡ some i}
        (λ i e. mem_of_get (dedupe [] sorted) (review_key i) i e) sorted
        (dedupe-keeps [] sorted tt
          (All-sort compare_review_items IsRaised raised (broken_building-IsRaised input))))
