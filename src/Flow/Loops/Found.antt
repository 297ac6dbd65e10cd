-- ===== src/Flow/Loops/Found.antt =====
-- packages/electrical-flow/src/cycles.ts, `representativeCycle`: it finds a loop where there is one.
use matchline.Base.{
  ◌≡◌, ◌≢◌, refl, ap, ◌∙◌, sym, inl, inr, ◌⊎◌, ℕ, zero, suc, ◌+◌, ◌≤◌, true, ◌||◌, List, [], ◌∷◌,
  reverse, some, arith, Text, text_eq, text_beq_iff, ◌==◌, includes, length, length_of_perm, Map,
  has, get-none_of_has, Bool-cases, List-cases, subst,
}
use mathlib.Core.List.{reverse_perm}
use matchline.Flow.Cycles.{FeedAdjacency, targets_of}
use matchline.Flow.Loops.{
  LoopSearch, LoopScan, closes, goes_on, scan_targets, path_up, search_loop, representative_cycle,
  smallest_rotation,
}
use matchline.Flow.Loops.Rotation.{smallest_rotation-names}
use matchline.Flow.Loops.Paths.{
  Arc, IsLoop, rotation-IsLoop, Up, top, up, path_up-Up, reverse-Arcs, closed-IsLoop,
}
use matchline.Flow.Loops.Scan.{Known, IsSearch, unseen, left_to_do, Scans, scan_targets-ScanResult}

module _ (members : List Text) (adjacency : FeedAdjacency) (start : Text) where
  LoopScan-cases :
      (r : LoopScan) → ((t : LoopSearch) × (r ≡ closes t)) ⊎ ((t : LoopSearch) × (r ≡ goes_on t))
  LoopScan-cases (closes t) = inl (t, refl)
  LoopScan-cases (goes_on t) = inr (t, refl)

  -- What arcs lead to from `start` within the component.
  pub data Leads : Text → Type 0 where
    begin : Leads start
    onto : {a b : Text} → Leads a → Arc adjacency a b → includes members b ≡ true → Leads b

  -- The nodes of `done` are scanned: their successors are known, and what is known is scanned or waits.
  record Done (done : List Text) (s : LoopSearch) : Type 0 where
    covered :
        (x : Text)
        → Known members adjacency start s x
        → (includes done x || includes s.queue x) ≡ true
    closed :
        (a b : Text)
        → includes done a ≡ true
        → Arc adjacency a b
        → includes members b ≡ true
        → has s.parents b ≡ true

  Leads-Known :
      (done : List Text) (s : LoopSearch)
      → Done done s
      → s.queue ≡ []
      → (x : Text) → Leads x
      → Known members adjacency start s x
  Leads-Known done s d empty x begin = ground (arith, text_beq_iff start start)
  Leads-Known done s d empty x (onto {a} leads arc member) =
      let known = Leads-Known done s d empty a leads in
      let scanned_a : includes done a ≡ true =
        ground (arith, d.covered a known, ap (λ q. includes q a) empty) in
      ground (arith, d.closed a x scanned_a arc member)

  -- With a way back to `start`, the queue does not run out.
  queue-not_empty :
      (done : List Text) (s : LoopSearch) (a : Text)
      → Done done s
      → IsSearch members adjacency start s
      → includes members start ≡ true
      → Leads a
      → Arc adjacency a start
      → s.queue ≢ []
  queue-not_empty done s a d i own leads back empty =
      let known = Leads-Known done s d empty a leads in
      let scanned_a : includes done a ≡ true =
        ground (arith, d.covered a known, ap (λ q. includes q a) empty) in
      let never = d.closed a start scanned_a back own in let free = i.free in cc

  smallest_rotation-IsLoop :
      (p : List Text) → IsLoop adjacency p → IsLoop adjacency (smallest_rotation p)
  smallest_rotation-IsLoop p h =
      rotation-IsLoop adjacency p (smallest_rotation p) (smallest_rotation-names p).0 h

  path-IsLoop :
      (t : LoopSearch) (current : Text)
      → IsSearch members adjacency start t
      → Known members adjacency start t current
      → Arc adjacency current start
      → IsLoop adjacency (reverse (path_up (suc (length t.parents)) t.parents (some current)))
  path-IsLoop t current i known back =
      let (l, path, short) = i.paths current known in
      let climbed =
        path_up-Up adjacency start path (suc (length t.parents))
          (get-none_of_has t.parents start i.free) short in
      let (arcs, first) = reverse-Arcs adjacency start path i.arcs start back in
      subst (λ p. IsLoop adjacency (reverse p)) (sym climbed)
        (closed-IsLoop adjacency start (reverse l) arcs first
          (omega (arith, length_of_perm (reverse_perm l), Up-long path)))
    where
      Up-long :
          {m : Map Text Text} {c : Text} {k : List Text} → Up adjacency start m c k → 1 ≤ length k
      Up-long top = omega arith
      Up-long (up e u) = omega arith

  scanned-Done :
      (done : List Text) (current : Text) (queue : List Text) (s t : LoopSearch)
      → s.queue ≡ current ∷ queue
      → Scans members adjacency start (targets_of adjacency current) (record s { queue = queue }) t
      → Done done s
      → Done (current ∷ done) t
  scanned-Done done current queue s t e scans d = record {
    covered = λ x k. elim (scans.covers x k) [
      | inl early ↦ ground (arith, d.covered x early, ap (λ q. includes q x) e, scans.waits x)
      | inr waiting ↦ ground (arith, waiting)
    ];
    closed = λ a b h arc member. elim (Bool-cases (current == a)) [
      | inl here ↦
          scans.takes b (subst (λ z. Arc adjacency z b) (sym ((text_beq_iff current a).0 here)) arc)
            member
      | inr there ↦ scans.grows b (d.closed a b (ground (arith, h, there)) arc member)
    ];
  }

  module _ (own : includes members start ≡ true) (a : Text) (leads : Leads a)
      (back : Arc adjacency a start) where
    search_loop-IsLoop :
        (fuel : ℕ) (s : LoopSearch) (done : List Text)
        → left_to_do members adjacency start s ≤ fuel
        → IsSearch members adjacency start s
        → Done done s
        → IsLoop adjacency (search_loop members adjacency start fuel s)
    unfolding search_loop
    search_loop-IsLoop zero s done le i d = elim (List-cases s.queue) [
      | inl empty ↦ absurd (queue-not_empty done s a d i own leads back empty)
      | inr (current, queue, e) ↦
          let more : length (current ∷ queue) + unseen members adjacency start s.parents members
              ≤ 0 =
            rw e at le in
          absurd (omega (arith, more))
    ]
    search_loop-IsLoop (suc n) s done le i d = elim (List-cases s.queue) [
      | inl empty ↦ absurd (queue-not_empty done s a d i own leads back empty)
      | inr (current, queue, e) ↦
          let rest : LoopSearch = record s { queue = queue } in
          let more : length (current ∷ queue) + unseen members adjacency start s.parents members
              ≤ suc n =
            rw e at le in
          let known =
            i.queued current
              (ap (λ q. includes q current) e ∙ ground (arith, text_beq_iff current current)) in
          let result =
            scan_targets-ScanResult members adjacency start current (targets_of adjacency current)
              rest
              (record {
                free = i.free;
                arcs = i.arcs;
                paths = i.paths;
                queued = λ x h. i.queued x (ap (λ q. includes q x) e ∙ ground (arith, h));
              })
              known (λ b h. h) in
          elim (LoopScan-cases
            (scan_targets members start current (targets_of adjacency current) rest)) [
              | inl (t, eq) ↦
                  let (is_search, known_t, closing) = rw eq at result in
                  rw (e, eq, search_loop)
                    (smallest_rotation-IsLoop _ (path-IsLoop t current is_search known_t closing))
              | inr (t, eq) ↦
                  let scans : Scans members adjacency start (targets_of adjacency current) rest t =
                    rw eq at result in
                  rw (e, eq, search_loop)
                    (search_loop-IsLoop n t (current ∷ done) (omega (arith, more, scans.less))
                      scans.is_search (scanned-Done done current queue s t e scans d))
            ]
    ]

module _ (start : Text) (component : List Text) (adjacency : FeedAdjacency) where
  abbrev members_of : List Text
  members_of = start ∷ component

  unseen-nil : (xs : List Text) → unseen members_of adjacency start [] xs ≡ length xs
  unseen-nil [] = refl
  unseen-nil (x ∷ xs) = ap suc (unseen-nil xs)

  -- If arcs lead within the component from its first node to a node with an arc back to the first, as they
  -- do in a strongly connected component, then `representativeCycle` returns a loop: each node of it has an
  -- arc to the next one, and the last has an arc to the first.
  pub representative_cycle-IsLoop :
      (a : Text)
      → Leads members_of adjacency start a
      → Arc adjacency a start
      → IsLoop adjacency (representative_cycle (start ∷ component) adjacency)
  unfolding representative_cycle
  representative_cycle-IsLoop a leads back =
      search_loop-IsLoop members_of adjacency start (ground (arith, text_beq_iff start start)) a
        leads back (suc (length members_of)) (record { parents = []; queue = start ∷ [] }) []
        (omega (arith, unseen-nil members_of))
        (record {
          free = refl;
          arcs = λ x y e. cc;
          paths = λ x k. (
            start ∷ [],
            subst (λ z. Up adjacency start [] z (start ∷ []))
                ((text_beq_iff start x).0 (ground (arith, k))) top,
            omega arith,
          );
          queued = λ x h. ground (arith, h);
        })
        (record { covered = λ x k. ground (arith, k); closed = λ b c h. cc })
