-- ===== src/Flow/Cycles/Apart.antt =====
-- packages/electrical-flow/src/cycles.ts, `stronglyConnectedComponents`: no node stands in two components.
use matchline.Base.{
  ◌≡◌, refl, ap, ◌∙◌, inl, inr, ℕ, zero, suc, ◌+◌, ◌*◌, ◌≤◌, false, List, [], ◌∷◌, ◌++◌, Perm,
  Option, none, some, if◌then◌else◌, arith, leb, Text, text_eq, text_beq_iff, compare_text, ◌==◌,
  includes, length, get_elem?, get, has, has-put, sort, sort-perm, Bool-cases, List-cases, All,
  All-append, All-sort, IsSorted, sort-IsSorted, compare_text-IsTotalOrder, length_of_perm,
}
use mathlib.Core.List.{Permᴰ}
use mathlib.Core.Logic.{∥∥₁_elim}
use matchline.Flow.Order.{compare_paths}
use matchline.Flow.Cycles.{
  FeedAdjacency, targets_of, TarjanFrame, Tarjan, entered, follow, lower_parent, popped_to,
  with_component, same_number, close_component, tarjan_step, arcs, explore, explore_root,
  explore_roots, unexplored, strongly_connected_components,
}
use matchline.Flow.Cycles.Work.{has-false_of_get}

-- How often a node stands in a list, and in the lists of a list.
abbrev pub times : Text → List Text → ℕ
times x [] = 0
times x (y ∷ ys) = if y == x then suc (times x ys) else times x ys

abbrev pub times_in : Text → List (List Text) → ℕ
times_in x [] = 0
times_in x (c ∷ cs) = times x c + times_in x cs

times_of_permᴰ : (x : Text) {ys zs : List Text} → Permᴰ ys zs → times x ys ≡ times x zs
times_of_permᴰ x Permᴰ.nil = refl
times_of_permᴰ x (Permᴰ.cons {a} {l₁ = l} e p) = let ih = times_of_permᴰ x p in rw (e, ih) refl
times_of_permᴰ x (Permᴰ.swap {a} {b} {l = l} e d) = rw (e, d) (ground arith)
times_of_permᴰ x (Permᴰ.trans p q) = times_of_permᴰ x p ∙ times_of_permᴰ x q

times_of_perm : (x : Text) {ys zs : List Text} → Perm ys zs → times x ys ≡ times x zs
times_of_perm x {ys} {zs} p =
    let is_prop : IsProp (times x ys ≡ times x zs) = hlevel in ∥∥₁_elim p is_prop (times_of_permᴰ x)

times_in_of_permᴰ :
    (x : Text) {ys zs : List (List Text)} → Permᴰ ys zs → times_in x ys ≡ times_in x zs
times_in_of_permᴰ x Permᴰ.nil = refl
times_in_of_permᴰ x (Permᴰ.cons {a} {l₁ = l} e p) =
    let ih = times_in_of_permᴰ x p in rw (e, ih) refl
times_in_of_permᴰ x (Permᴰ.swap {a} {b} {l = l} e d) = rw (e, d) (omega arith)
times_in_of_permᴰ x (Permᴰ.trans p q) = times_in_of_permᴰ x p ∙ times_in_of_permᴰ x q

times_in_of_perm :
    (x : Text) {ys zs : List (List Text)} → Perm ys zs → times_in x ys ≡ times_in x zs
times_in_of_perm x {ys} {zs} p =
    let is_prop : IsProp (times_in x ys ≡ times_in x zs) = hlevel in
    ∥∥₁_elim p is_prop (times_in_of_permᴰ x)

times_in-append :
    (x : Text) (cs ds : List (List Text)) → times_in x (cs ++ ds) ≡ times_in x cs + times_in x ds
times_in-append x [] ds = omega arith
times_in-append x (c ∷ cs) ds = omega (arith, times_in-append x cs ds)

times-popped_to :
    (x node_id : Text) (stack : List Text)
    → times x (popped_to node_id stack).0 + times x (popped_to node_id stack).1 ≡ times x stack
unfolding popped_to
times-popped_to x node_id [] = omega arith
times-popped_to x node_id (popped ∷ stack) =
    let ih = times-popped_to x node_id stack in
    elim (Bool-cases (popped == node_id)) [
      | inl here ↦ rw here (ground arith)
      | inr there ↦ rw there (ground (arith, ih))
    ]

times-with_component_le :
    (x : Text) (c : List Text) (cs : List (List Text))
    → times_in x (with_component c cs) ≤ times x c + times_in x cs
times-with_component_le x c cs = elim (Bool-cases (leb 2 (length c))) [
  | inl large ↦ rw large (
      omega (
        arith,
        times_in-append x cs (sort compare_text c ∷ []),
        times_of_perm x (sort-perm compare_text c),
      ))
  | inr small ↦ rw small (omega arith)
]

-- A component has two nodes at least, in ascending order.
abbrev pub IsComponent : List Text → Type 0
IsComponent c = (2 ≤ length c) × IsSorted compare_text c

with_component-IsComponent :
    (c : List Text) (cs : List (List Text))
    → All IsComponent cs
    → All IsComponent (with_component c cs)
with_component-IsComponent c cs h = elim (Bool-cases (leb 2 (length c))) [
  | inl large ↦
      let long : 2 ≤ length c = ground arith in
      rw large (
        All-append IsComponent cs (sort compare_text c ∷ []) h (
          (
            omega (arith, length_of_perm (sort-perm compare_text c)),
            sort-IsSorted compare_text-IsTotalOrder.order c,
          ),
          tt,
        ))
  | inr small ↦ rw small h
]

-- The stack and the components hold each node that has a number once at most, and no other node.
pub record IsApart (t : Tarjan) : Type 0 where
  pub once :
      (x : Text) → times x t.stack + times_in x t.components ≤ (if has t.index x then 1 else 0)
  pub formed : All IsComponent t.components

entered-IsApart :
    (node_id : Text) (t : Tarjan)
    → has t.index node_id ≡ false
    → IsApart t
    → IsApart (entered node_id t)
entered-IsApart node_id t new a = record {
  once = λ x. ground (
    arith,
    a.once x,
    has-put t.index node_id x t.counter,
    text_beq_iff node_id x,
    ap (has t.index),
  );
  formed = a.formed;
}

close_component-IsApart :
    (node_id : Text) (t : Tarjan) → IsApart t → IsApart (close_component node_id t)
unfolding close_component
close_component-IsApart node_id t a =
    elim (Bool-cases (same_number (get t.low_link node_id) (get t.index node_id))) [
      | inl same ↦
          rw (same, close_component)
            (record {
              once = λ x. omega (
                arith,
                a.once x,
                times-popped_to x node_id t.stack,
                times-with_component_le x (popped_to node_id t.stack).0 t.components,
              );
              formed =
                  with_component-IsComponent (popped_to node_id t.stack).0 t.components a.formed;
            })
      | inr other ↦ rw (other, close_component) a
    ]

framed-IsApart :
    (frames : List TarjanFrame) (t : Tarjan) → IsApart t → IsApart (record t { frames = frames })
framed-IsApart frames t a = record { once = a.once; formed = a.formed }

lower_parent-IsApart :
    (node_id : Text) (frames : List TarjanFrame) (t : Tarjan)
    → IsApart t
    → IsApart (lower_parent node_id frames t)
lower_parent-IsApart node_id [] t a = a
lower_parent-IsApart node_id (parent ∷ frames) t a = record { once = a.once; formed = a.formed }

follow-IsApart :
    (node_id target : Text) (o : Option ℕ) (t : Tarjan)
    → get t.index target ≡ o
    → IsApart t
    → IsApart (follow node_id target o t)
follow-IsApart node_id target none t e a =
    entered-IsApart target t (has-false_of_get t.index target e) a
follow-IsApart node_id target (some n) t e a = elim (Bool-cases (includes t.on_stack target)) [
  | inl waiting ↦ rw waiting (record { once = a.once; formed = a.formed })
  | inr closed ↦ rw closed a
]

tarjan_step-IsApart :
    (o : Option Text) (frame : TarjanFrame) (frames : List TarjanFrame) (t : Tarjan)
    → IsApart t
    → IsApart (tarjan_step o frame frames t)
tarjan_step-IsApart (some target) frame frames t a =
    follow-IsApart frame.node_id target (get t.index target) _ refl (framed-IsApart _ t a)
tarjan_step-IsApart none frame frames t a =
    close_component-IsApart frame.node_id _
      (lower_parent-IsApart frame.node_id frames _ (framed-IsApart frames t a))

explore-IsApart :
    (adjacency : FeedAdjacency) (fuel : ℕ) (t : Tarjan)
    → IsApart t
    → IsApart (explore adjacency fuel t)
unfolding explore
explore-IsApart adjacency zero t a = a
explore-IsApart adjacency (suc fuel) t a = elim (List-cases t.frames) [
  | inl none_left ↦ rw (none_left, explore) a
  | inr (frame, frames, e) ↦
      rw (e, explore)
        (explore-IsApart adjacency fuel _ (
          tarjan_step-IsApart (get_elem? (targets_of adjacency frame.node_id) frame.next) frame
            frames t a))
]

explore_roots-IsApart :
    (adjacency : FeedAdjacency) (t : Tarjan) (roots : List Text)
    → IsApart t
    → IsApart (explore_roots adjacency t roots)
unfolding explore_roots explore_root
explore_roots-IsApart adjacency t [] a = a
explore_roots-IsApart adjacency t (root ∷ roots) a =
    explore_roots-IsApart adjacency (explore_root adjacency t root) roots
      (elim (Bool-cases (has t.index root)) [
        | inl known ↦ rw (known, explore_root) a
        | inr new ↦
            rw (new, explore_root)
              (explore-IsApart adjacency (1 + 2 * arcs adjacency) (entered root t)
                (entered-IsApart root t new a))
      ])

-- No node stands twice in the strongly connected components, neither in one of them nor in two, and each
-- component that is returned has two nodes at least and is in ascending order.
pub strongly_connected_components-apart :
    (node_ids : List Text) (adjacency : FeedAdjacency)
    → ((x : Text) → times_in x (strongly_connected_components node_ids adjacency) ≤ 1)
      × All IsComponent (strongly_connected_components node_ids adjacency)
unfolding strongly_connected_components
strongly_connected_components-apart node_ids adjacency =
    let t : Tarjan = explore_roots adjacency unexplored node_ids in
    let a : IsApart t =
      explore_roots-IsApart adjacency unexplored node_ids
        (record { once = λ x. omega arith; formed = tt }) in
    (
      λ x. ground (arith, a.once x, times_in_of_perm x (sort-perm compare_paths t.components)),
      All-sort compare_paths IsComponent t.components a.formed,
    )
