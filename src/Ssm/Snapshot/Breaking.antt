-- ===== src/Ssm/Snapshot/Breaking.antt =====
-- packages/ssm-compiler/src/compile.ts, `compileSnapshot`: the loop that breaks the cycles.
use matchline.Base.{
  ◌≡◌, refl, sym, ap, ◌∙◌, inl, inr, ◌⊎◌, true, List, [], ◌∷◌, none, some, if◌then◌else◌, ◌==◌,
  arith, Text, text_eq, text_beq_iff, Map, get, get-put, get-some_of_has, has, has-put, has_of_get,
  put, includes, All, All-imp, All_lookup, Bool-cases, subst,
}
use matchline.Domain.Ladder.{ParentLadderConfig}
use matchline.Domain.Snapshot.{ResolvedAssetNode}
use matchline.Ssm.Cycles.{weakest_member, downgrade}
use matchline.Ssm.Cycles.Roots.{IsBroken}
use matchline.Ssm.Cycles.Links.{parent_of_node, parent_at}
use matchline.Ssm.Cycles.Weakest.{weakest_member-member}
use matchline.Ssm.Snapshot.{break_cycle, break_cycles, break_next, Building}

-- Cycles of known assets, with at least one member each.
abbrev pub IsKnownCycle : Map Text ResolvedAssetNode → List Text → Type 0
IsKnownCycle nodes cycle =
    (x : Text) × (xs : List Text) × (cycle ≡ x ∷ xs) × All (λ i. has nodes i ≡ true) cycle

-- Each node is as it was, or downgraded.
abbrev pub IsDowngraded :
    ParentLadderConfig → Map Text ResolvedAssetNode → Map Text ResolvedAssetNode → Type 0
IsDowngraded ladder after before =
    (x : Text)
    → ((m : ResolvedAssetNode) × (get after x ≡ some (downgrade m ladder)))
      ⊎ (get after x ≡ get before x)

-- Each node is as it was, or has no parent any more.
abbrev pub IsPruned : Map Text ResolvedAssetNode → Map Text ResolvedAssetNode → Type 0
IsPruned after before = (x : Text) → (parent_at after x ≡ none) ⊎ (get after x ≡ get before x)

module _ (ladder : ParentLadderConfig) where
  -- One cycle broken: the weakest member is downgraded.
  broken_is :
      (nodes : Map Text ResolvedAssetNode) (x w : Text) (cycle : List Text)
      (node : ResolvedAssetNode)
      → weakest_member (x ∷ cycle) nodes ladder ≡ some w
      → get nodes w ≡ some node
      → break_cycle ladder nodes (x ∷ cycle) ≡ put nodes w (downgrade node ladder)
  unfolding break_cycle
  broken_is nodes x w cycle node e g = rw (e, g, break_cycle) refl

  parent_at-downgraded :
      (nodes : Map Text ResolvedAssetNode) (w : Text) (node : ResolvedAssetNode) (x : Text)
      → parent_at (put nodes w (downgrade node ladder)) x
        ≡ (if w == x then none else parent_at nodes x)
  unfolding downgrade
  parent_at-downgraded nodes w node x = ground (arith, get-put nodes w x (downgrade node ladder))

  -- What breaking does to the parents.
  record Breaks (cycle : List Text) (before after : Map Text ResolvedAssetNode) : Type 0 where
    broken : IsBroken (parent_at after) cycle
    pruned : IsPruned after before
    downgraded : IsDowngraded ladder after before
    same : (x : Text) → has after x ≡ has before x

  downgraded-Breaks :
      (cycle : List Text) (nodes : Map Text ResolvedAssetNode) (w : Text) (node : ResolvedAssetNode)
      → get nodes w ≡ some node
      → includes cycle w ≡ true
      → Breaks cycle nodes (put nodes w (downgrade node ladder))
  downgraded-Breaks cycle nodes w node g i = record {
    broken = (w, i, ground (arith, parent_at-downgraded nodes w node w, text_beq_iff w w));
    pruned = λ y. elim (Bool-cases (w == y)) [
      | inl here ↦ inl (parent_at-downgraded nodes w node y ∙ rw here refl)
      | inr there ↦ inr (get-put nodes w y (downgrade node ladder) ∙ rw there refl)
    ];
    downgraded = λ y. elim (Bool-cases (w == y)) [
      | inl here ↦ inl (node, get-put nodes w y (downgrade node ladder) ∙ rw here refl)
      | inr there ↦ inr (get-put nodes w y (downgrade node ladder) ∙ rw there refl)
    ];
    same = λ y. ground (
      arith,
      has-put nodes w y (downgrade node ladder),
      text_beq_iff w y,
      has_of_get nodes w node g,
    );
  }

  break_cycle-Breaks :
      (nodes : Map Text ResolvedAssetNode) (x : Text) (cycle : List Text)
      → All (λ i. has nodes i ≡ true) (x ∷ cycle)
      → Breaks (x ∷ cycle) nodes (break_cycle ladder nodes (x ∷ cycle))
  break_cycle-Breaks nodes x cycle known =
      let (w, e, i) = weakest_member-member nodes ladder x cycle known in
      let met = All_lookup (λ i. has nodes i ≡ true) (x ∷ cycle) w known i in
      let (node, g) = get-some_of_has nodes w met in
      subst (Breaks (x ∷ cycle) nodes) (sym (broken_is nodes x w cycle node e g))
        (downgraded-Breaks (x ∷ cycle) nodes w node g i)

  -- All cycles broken.
  pub record BreaksAll (cycles : List (List Text)) (before after : Map Text ResolvedAssetNode)
      : Type 0 where
    pub broken : All (IsBroken (parent_at after)) cycles
    pub pruned : IsPruned after before
    pub downgraded : IsDowngraded ladder after before
    pub same : (x : Text) → has after x ≡ has before x

  IsPruned-trans : (f g h : Map Text ResolvedAssetNode) → IsPruned f g → IsPruned g h → IsPruned f h
  IsPruned-trans f g h a b x = elim (a x) [
    | inl n ↦ inl n
    | inr e ↦ elim (b x) [ inl n ↦ inl (ap parent_of_node e ∙ n) | inr d ↦ inr (e ∙ d) ]
  ]

  still-IsBroken :
      (f g : Map Text ResolvedAssetNode) (cycle : List Text)
      → IsPruned f g
      → IsBroken (parent_at g) cycle
      → IsBroken (parent_at f) cycle
  still-IsBroken f g cycle cut (w, i, n) =
      (w, i, elim (cut w) [ inl m ↦ m | inr e ↦ ap parent_of_node e ∙ n ])

  known-Breaks :
      (nodes : Map Text ResolvedAssetNode) (cycle : List Text)
      → IsKnownCycle nodes cycle
      → Breaks cycle nodes (break_cycle ladder nodes cycle)
  known-Breaks nodes [] (x, xs, e, known) = cc
  known-Breaks nodes (y ∷ ys) (x, xs, e, known) = break_cycle-Breaks nodes y ys known

  still_known :
      (before after : Map Text ResolvedAssetNode)
      → ((x : Text) → has after x ≡ has before x)
      → (cycle : List Text) → IsKnownCycle before cycle
      → IsKnownCycle after cycle
  still_known before after same cycle (x, xs, e, known) =
      (x, xs, e, All-imp (λ i h. same i ∙ h) cycle known)

  both-BreakAll :
      (cycle : List Text) (cycles : List (List Text))
      (before between after : Map Text ResolvedAssetNode)
      → Breaks cycle before between
      → BreaksAll cycles between after
      → BreaksAll (cycle ∷ cycles) before after
  both-BreakAll cycle cycles before between after one rest = record {
    broken = (still-IsBroken after between cycle rest.pruned one.broken, rest.broken);
    pruned = IsPruned-trans after between before rest.pruned one.pruned;
    downgraded = λ x. elim (rest.downgraded x) [
      | inl d ↦ inl d
      | inr e ↦ elim (one.downgraded x) [ inl (m, d) ↦ inl (m, e ∙ d) | inr d ↦ inr (e ∙ d) ]
    ];
    same = λ x. rest.same x ∙ one.same x;
  }

  pub break_cycles-BreaksAll :
      (b : Building) (cycles : List (List Text))
      → All (IsKnownCycle b.nodes) cycles
      → BreaksAll cycles b.nodes (break_cycles ladder b cycles).nodes
  unfolding break_cycles
  break_cycles-BreaksAll b [] _ = record {
    broken = tt;
    pruned = λ x. inr refl;
    downgraded = λ x. inr refl;
    same = λ x. refl;
  }
  break_cycles-BreaksAll b (cycle ∷ cycles) (k, ks) =
      let one = known-Breaks b.nodes cycle k in
      both-BreakAll cycle cycles b.nodes (break_cycle ladder b.nodes cycle) _ one (
        break_cycles-BreaksAll (break_next ladder b cycle) cycles
          (All-imp (still_known b.nodes (break_cycle ladder b.nodes cycle) one.same) cycles ks))
