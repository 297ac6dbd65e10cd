-- ===== src/Ssm/Snapshot/Acyclic.antt =====
-- packages/ssm-compiler/src/compile.ts, `compileSnapshot`: the loop that breaks the cycles.
use matchline.Base.{
  ◌≡◌, refl, sym, ap, ◌∙◌, inl, inr, true, false, List, [], ◌∷◌, Option, none, some, Text, text_eq,
  compare_text, Map, get, get-none_of_has, has, keys, IsDistinct, includes, includes-sort, All,
  All-imp, All_lookup, All-of_includes, Bool-cases,
}
use matchline.Domain.Snapshot.{ResolvedAssetNode}
use matchline.Ssm.Cycles.{links_from}
use matchline.Ssm.Cycles.Climb.{head_or, Linked}
use matchline.Ssm.Cycles.Roots.{ReachesRoot, IsCutOf, IsCycle, at_root}
use matchline.Ssm.Cycles.Links.{
  parent_of_node, parent_at, links-closed, has_of_link, find_cycles-reaches, find_cycles-cycles,
}
use matchline.Ssm.Snapshot.Breaking.{BreaksAll, IsKnownCycle, break_cycles-BreaksAll}
use matchline.Ssm.Snapshot.{
  CompileInput, resolved_building, broken_building, cycles_of, ordered_ids, compile_snapshot,
  ladder_of, subject_index,
}
use matchline.Ssm.Snapshot.Parents.{resolved-known, resolved-IsClosed}
use matchline.Ssm.Snapshot.Nodes.{resolved-get, resolved-IsDistinct}

abbrev IsSome : Option Text → Type 0
IsSome none = ⊥
IsSome (some x) = Unit

known_of_cycle :
    (nodes : Map Text ResolvedAssetNode)
    → IsDistinct (keys nodes)
    → (cycle : List Text) → IsCycle (links_from nodes nodes []) cycle
    → IsKnownCycle nodes cycle
known_of_cycle nodes d [] (x, h, l) = cc
known_of_cycle nodes d (y ∷ ys) (x, h, l) = (y, ys, refl, known (y ∷ ys) (some x) tt l)
  where
    has_of_end :
        (z : Text) (o : Option Text)
        → get (links_from nodes nodes []) z ≡ o
        → IsSome o
        → has nodes z ≡ true
    has_of_end z none p h = absurd h
    has_of_end z (some q) p h = has_of_link nodes d z q p

    some_head : (xs : List Text) (end : Option Text) → IsSome end → IsSome (head_or xs end)
    some_head [] end h = h
    some_head (x ∷ xs) end h = tt

    known :
        (xs : List Text) (end : Option Text)
        → IsSome end
        → Linked (links_from nodes nodes []) xs end
        → All (λ i. has nodes i ≡ true) xs
    known [] end some_end _ = tt
    known (z ∷ zs) end is_some (p, l) =
        (has_of_end z (head_or zs end) p (some_head zs end is_some), known zs end is_some l)

module _ (input : CompileInput) where
  -- The nodes that the assets resolve to, before and after the cycles are broken.
  abbrev before : Map Text ResolvedAssetNode
  before = (resolved_building input).nodes

  started : All (λ i. has before i ≡ true) (ordered_ids input)
  started =
      All-of_includes (λ i. has before i ≡ true) (ordered_ids input)
        (λ i h.
          resolved-known input i
            (rw (includes-sort compare_text (keys (subject_index input)) i) at h))

  pub cycles-known : All (IsKnownCycle before) (cycles_of input)
  cycles-known =
      All-imp (known_of_cycle before (resolved-IsDistinct input)) (cycles_of input)
        (find_cycles-cycles before (resolved-IsDistinct input) (ordered_ids input) started)

  pub broken-BreaksAll :
      BreaksAll (ladder_of input.ladder) (cycles_of input) before (broken_building input).nodes
  broken-BreaksAll =
      break_cycles-BreaksAll (ladder_of input.ladder) (resolved_building input) (cycles_of input)
        cycles-known

  cut-links : IsCutOf (parent_at (broken_building input).nodes) (get (links_from before before []))
  cut-links x = elim (broken-BreaksAll.pruned x) [
    | inl n ↦ inl n
    | inr e ↦ inr (
        ap parent_of_node e
        ∙ sym (links-closed before (resolved-IsDistinct input) (resolved-IsClosed input) x))
  ]

  All-reach : All (ReachesRoot (parent_at (broken_building input).nodes)) (ordered_ids input)
  All-reach =
      find_cycles-reaches before (resolved-IsDistinct input) (ordered_ids input)
        (parent_at (broken_building input).nodes) started cut-links broken-BreaksAll.broken

  parent_at-unknown :
      (x : Text)
      → includes (ordered_ids input) x ≡ false
      → parent_at (broken_building input).nodes x ≡ none
  parent_at-unknown x away = elim (broken-BreaksAll.pruned x) [
    | inl n ↦ n
    | inr e ↦ ap parent_of_node e ∙ rw (resolved-get input x, absent) refl
  ]
    where
      absent : get (subject_index input) x ≡ none
      absent =
          get-none_of_has (subject_index input) x
            (rw (includes-sort compare_text (keys (subject_index input)) x) at away)

  -- The structural parents of a snapshot have no cycle: going up from any asset, over the parents that
  -- the snapshot gives, ends at an asset without one.
  pub compile_snapshot-acyclic :
      (x : Text) → ReachesRoot (parent_at (compile_snapshot input).nodes) x
  unfolding compile_snapshot
  compile_snapshot-acyclic x = elim (Bool-cases (includes (ordered_ids input) x)) [
    | inl here ↦ All_lookup _ (ordered_ids input) x All-reach here
    | inr away ↦ at_root (parent_at-unknown x away)
  ]

  -- A structural parent in a snapshot is an asset of the snapshot.
  pub compile_snapshot-closed :
      (x p : Text)
      → parent_at (compile_snapshot input).nodes x ≡ some p
      → has (compile_snapshot input).nodes p ≡ true
  unfolding compile_snapshot
  compile_snapshot-closed x p e = elim (broken-BreaksAll.pruned x) [
    | inl n ↦ cc
    | inr same ↦
        broken-BreaksAll.same p ∙ resolved-IsClosed input x p (sym (ap parent_of_node same) ∙ e)
  ]
