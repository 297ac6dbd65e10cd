-- ===== src/Ssm/Cycles/Found.antt =====
-- packages/ssm-compiler/src/compile.ts, `findCycles`: the loop over the assets, and the map of
-- parents that it reads.
use matchline.Base.{
  ◌≡◌, refl, inl, inr, ℕ, suc, true, false, ◌||◌, List, [], ◌∷◌, ◌++◌, Option, none, some, ◌==◌,
  arith, Text, text_eq, text_beq_iff, Map, get, get-some_of_has, has, length, All, All-append,
  includes, add, includes-add, Bool-cases, subst,
}
use matchline.Ssm.Cycles.{
  Climbing, Search, climbs_on, closed, add_all, finished, search_from, search_all, slice,
}
use matchline.Ssm.Cycles.Climb.{Linked, numbered_from, IsClimbing, met_of_done, climbed}
use matchline.Ssm.Cycles.Roots.{
  ReachesRoot, Ends, IsCutOf, IsCycle, IsBroken, reaches_of_Linked, reaches_of_cycle, slice-Linked,
}

includes-add_all :
    (path settled : List Text) (x : Text)
    → includes (add_all settled path) x ≡ (includes settled x || includes path x)
unfolding add_all
includes-add_all [] settled x = ground arith
includes-add_all (y ∷ path) settled x =
    ground (arith, includes-add_all path (add settled y) x, includes-add settled y x)

module _ (parent_of : Map Text Text) (ids : List Text)
    (closed_under : (x y : Text) → get parent_of x ≡ some y → includes ids y ≡ true) where
  abbrev ClimbedFrom : List Text → Text → Climbing → Type 0
  ClimbedFrom settled start_id s =
      IsClimbing parent_of ids closed_under settled start_id s
      × (climbs_on settled s s.current ≡ false)

  closed-some :
      (s : Climbing) (c : Text) (k : ℕ)
      → get s.position_in_path c ≡ some k
      → closed s (some c) ≡ slice s.path k ∷ []
  unfolding closed
  closed-some s c k g = rw (g, closed) refl

  -- What a finished loop adds to the cycles are cycles.
  closed-cycles :
      (s : Climbing) (o : Option Text)
      → s.position_in_path ≡ numbered_from 0 s.path
      → Linked parent_of s.path o
      → All (IsCycle parent_of) (closed s o)
  unfolding closed
  closed-cycles s none e l = tt
  closed-cycles s (some c) e l = go (get s.position_in_path c) refl
    where
      go :
          (o : Option ℕ)
          → get s.position_in_path c ≡ o
          → All (IsCycle parent_of) (elim o [ none ↦ [] | some start ↦ slice s.path start ∷ [] ])
      go none g = tt
      go (some start) g =
          let (h, k) =
            slice-Linked parent_of s.path (some c) 0 start start c (rw e at g) (omega arith) l in
          ((c, h, k), tt)

  module _ (up : Text → Option Text) (cut : IsCutOf up (get parent_of)) where
    abbrev AllBroken : List (List Text) → Type 0
    AllBroken = All (IsBroken up)

    abbrev Settles : Search → Type 0
    Settles state = (x : Text) → includes state.settled x ≡ true → ReachesRoot up x

    All-split : (xs ys : List (List Text)) → AllBroken (xs ++ ys) → AllBroken xs × AllBroken ys
    All-split [] ys b = (tt, b)
    All-split (x ∷ xs) ys (b, bs) = let (l, r) = All-split xs ys bs in ((b, l), r)

    closed-Ends :
        (s : Climbing) (c start : Text)
        → s.position_in_path ≡ numbered_from 0 s.path
        → Linked parent_of s.path (some c)
        → has s.position_in_path c ≡ true
        → AllBroken (closed s (some c))
        → ReachesRoot up c
    unfolding closed
    closed-Ends s c start e l met b =
        let (k, g) = get-some_of_has s.position_in_path c met in
        let (h, m) = slice-Linked parent_of s.path (some c) 0 k k c (rw e at g) (omega arith) l in
        reaches_of_cycle parent_of up cut (slice s.path k) c h m
          (subst AllBroken (closed-some s c k g) b).0

    -- Where a finished loop stopped, a root is reached.
    stop-Ends :
        (state : Search) (start : Text) (s : Climbing) (o : Option Text)
        → Settles state
        → s.position_in_path ≡ numbered_from 0 s.path
        → Linked parent_of s.path o
        → climbs_on state.settled s o ≡ false
        → AllBroken (closed s o)
        → Ends up o
    stop-Ends state start s none st e l done b = tt
    stop-Ends state start s (some c) st e l done b = elim (met_of_done state.settled s c done) [
      | inl old ↦ st c old
      | inr met ↦ closed-Ends s c start e l met b
    ]

    all_of_Linked :
        (xs : List Text) (end : Option Text) (x : Text)
        → Linked parent_of xs end
        → Ends up end
        → includes xs x ≡ true
        → ReachesRoot up x
    all_of_Linked [] end x _ r i = cc
    all_of_Linked (y ∷ xs) end x (e, l) r i = elim (Bool-cases (y == x)) [
      | inl here ↦
          subst (ReachesRoot up) ((text_beq_iff y x).0 here)
            (reaches_of_Linked parent_of up cut (y ∷ xs) end (e, l) r)
      | inr there ↦ all_of_Linked xs end x l r (rw there at i)
    ]

    -- One round of the loop over the assets.
    record Round (start : Text) (before after : Search) : Type 0 where
      settles : Settles before → AllBroken after.cycles → Settles after × ReachesRoot up start
      grows : AllBroken after.cycles → AllBroken before.cycles

    finished-Round :
        (state : Search) (start : Text) (s : Climbing)
        → ClimbedFrom state.settled start s
        → Round start state (finished state s)
    finished-Round state start s (w, done) = record {
      settles = λ st b. settle st (All-split state.cycles _ b).1;
      grows = λ b. (All-split state.cycles _ b).0;
    }
      where
        settle :
            Settles state
            → AllBroken (closed s s.current)
            → Settles (finished state s) × ReachesRoot up start
        settle st b =
            let ends = stop-Ends state start s s.current st w.numbered w.linked done b in
            (
              λ x i. elim (Bool-cases (includes state.settled x)) [
                | inl old ↦ st x old
                | inr new ↦
                    all_of_Linked s.path s.current x w.linked ends
                      (ground (arith, includes-add_all s.path state.settled x))
              ],
              subst (Ends up) w.started
                  (reaches_of_Linked parent_of up cut s.path s.current w.linked ends),
            )

    round :
        (state : Search) (start : Text)
        → includes ids start ≡ true
        → Round start state (search_from (suc (length ids)) parent_of state start)
    unfolding search_from
    round state start i = elim (Bool-cases (includes state.settled start)) [
      | inl old ↦ rw old (record { settles = λ st b. (st, st start old); grows = λ b. b })
      | inr new ↦
          rw new (
            finished-Round state start _ (climbed parent_of ids closed_under state.settled start i))
    ]

    search_all-grows :
        (state : Search) (starts : List Text)
        → All (λ i. includes ids i ≡ true) starts
        → AllBroken (search_all (suc (length ids)) parent_of state starts).cycles
        → AllBroken state.cycles
    unfolding search_all
    search_all-grows state [] _ b = b
    search_all-grows state (start ∷ starts) (i, is) b =
        (round state start i).grows
          (search_all-grows (search_from (suc (length ids)) parent_of state start) starts is b)

    pub search_all-reaches :
        (state : Search) (starts : List Text)
        → Settles state
        → All (λ i. includes ids i ≡ true) starts
        → AllBroken (search_all (suc (length ids)) parent_of state starts).cycles
        → All (ReachesRoot up) starts
    unfolding search_all
    search_all-reaches state [] st _ b = tt
    search_all-reaches state (start ∷ starts) st (i, is) b =
        let (after, here) =
          (round state start i).settles st
            (search_all-grows (search_from (suc (length ids)) parent_of state start) starts is b) in
        (
          here,
          search_all-reaches (search_from (suc (length ids)) parent_of state start) starts after is
              b,
        )

  search_from-cycles :
      (state : Search) (start : Text)
      → includes ids start ≡ true
      → All (IsCycle parent_of) state.cycles
      → All (IsCycle parent_of) (search_from (suc (length ids)) parent_of state start).cycles
  unfolding search_from
  search_from-cycles state start i h = elim (Bool-cases (includes state.settled start)) [
    | inl old ↦ rw old h
    | inr new ↦
        let (w, done) = climbed parent_of ids closed_under state.settled start i in
        rw new
          (All-append (IsCycle parent_of) state.cycles _ h (closed-cycles _ _ w.numbered w.linked))
  ]

  -- The cycles that are found are closed chains of parents.
  pub search_all-cycles :
      (state : Search) (starts : List Text)
      → All (λ i. includes ids i ≡ true) starts
      → All (IsCycle parent_of) state.cycles
      → All (IsCycle parent_of) (search_all (suc (length ids)) parent_of state starts).cycles
  unfolding search_all
  search_all-cycles state [] _ h = h
  search_all-cycles state (start ∷ starts) (i, is) h =
      search_all-cycles (search_from (suc (length ids)) parent_of state start) starts is
        (search_from-cycles state start i h)
