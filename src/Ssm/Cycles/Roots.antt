-- ===== src/Ssm/Cycles/Roots.antt =====
-- packages/ssm-compiler/src/compile.ts, `findCycles`: chains of parents, and what cutting them does.
use matchline.Base.{
  ◌≡◌, ap, ◌∙◌, inl, inr, ◌⊎◌, ℕ, zero, suc, ◌+◌, ◌≤◌, true, List, [], ◌∷◌, Option, none, some,
  ◌==◌, arith, Text, text_eq, text_beq_iff, Map, get, includes, Bool-cases, subst,
}
use matchline.Ssm.Cycles.{slice}
use matchline.Ssm.Cycles.Climb.{head_or, Linked, numbered_from}

-- Going up from the asset ends at one without a parent.
pub data ReachesRoot (up : Text → Option Text) : Text → Type 0 where
  at_root : {x : Text} → up x ≡ none → ReachesRoot up x
  through : {x : Text} (y : Text) → up x ≡ some y → ReachesRoot up y → ReachesRoot up x

-- The end of a chain: nothing, or an asset that reaches a root.
abbrev pub Ends : (Text → Option Text) → Option Text → Type 0
Ends up none = Unit
Ends up (some x) = ReachesRoot up x

-- Each asset has the parent it had, or none any more.
abbrev pub IsCutOf : (Text → Option Text) → (Text → Option Text) → Type 0
IsCutOf up before = (x : Text) → (up x ≡ none) ⊎ (up x ≡ before x)

-- A closed chain of parents.
abbrev pub IsCycle : Map Text Text → List Text → Type 0
IsCycle parent_of cycle =
    (x : Text) × (head_or cycle none ≡ some x) × Linked parent_of cycle (some x)

-- Some member has no parent any more.
abbrev pub IsBroken : (Text → Option Text) → List Text → Type 0
IsBroken up cycle = (x : Text) × (includes cycle x ≡ true) × (up x ≡ none)

module _ (parent_of : Map Text Text) (up : Text → Option Text)
    (cut : IsCutOf up (get parent_of)) where
  reaches_of_parent :
      (x : Text) (o : Option Text) → get parent_of x ≡ o → Ends up o → ReachesRoot up x
  reaches_of_parent x none e _ = elim (cut x) [ inl n ↦ at_root n | inr k ↦ at_root (k ∙ e) ]
  reaches_of_parent x (some y) e r = elim (cut x) [
    | inl n ↦ at_root n
    | inr k ↦ through y (k ∙ e) r
  ]

  -- If the end of a chain reaches a root, so does every asset of the chain.
  pub reaches_of_Linked :
      (xs : List Text) (end : Option Text)
      → Linked parent_of xs end
      → Ends up end
      → Ends up (head_or xs end)
  reaches_of_Linked [] end _ r = r
  reaches_of_Linked (x ∷ xs) end (e, l) r =
      reaches_of_parent x (head_or xs end) e (reaches_of_Linked xs end l r)

  -- A broken chain reaches a root from its first asset.
  pub reaches_of_broken :
      (xs : List Text) (end : Option Text) (w : Text)
      → Linked parent_of xs end
      → includes xs w ≡ true
      → up w ≡ none
      → Ends up (head_or xs end)
  reaches_of_broken [] end w _ i n = cc
  reaches_of_broken (x ∷ xs) end w (e, l) i n = elim (Bool-cases (x == w)) [
    | inl here ↦ at_root (ap up ((text_beq_iff x w).0 here) ∙ n)
    | inr there ↦
        reaches_of_parent x (head_or xs end) e (reaches_of_broken xs end w l (rw there at i) n)
  ]

  pub reaches_of_cycle :
      (cycle : List Text) (c : Text)
      → head_or cycle none ≡ some c
      → Linked parent_of cycle (some c)
      → IsBroken up cycle
      → ReachesRoot up c
  reaches_of_cycle [] c h l (w, i, n) = cc
  reaches_of_cycle (x ∷ xs) c h l (w, i, n) =
      subst (Ends up) h (reaches_of_broken (x ∷ xs) (some c) w l i n)

numbered_from-le :
    (xs : List Text) (n k : ℕ) (c : Text) → get (numbered_from n xs) c ≡ some k → n ≤ k
numbered_from-le [] n k c e = cc
numbered_from-le (x ∷ xs) n k c e = ground (arith, numbered_from-le xs (suc n) k c)

-- The part of a chain that starts at a numbered asset.
pub slice-Linked :
    (parent_of : Map Text Text) (xs : List Text) (end : Option Text) (n i k : ℕ) (c : Text)
    → get (numbered_from n xs) c ≡ some k
    → k ≡ i + n
    → Linked parent_of xs end
    → (head_or (slice xs i) none ≡ some c) × Linked parent_of (slice xs i) end
unfolding slice
slice-Linked parent_of [] end n i k c e s l = cc
slice-Linked parent_of (x ∷ xs) end n zero k c e s l =
    (ground (arith, numbered_from-le xs (suc n) k c, text_beq_iff x c), l)
slice-Linked parent_of (x ∷ xs) end n (suc i) k c e s (_, l) =
    slice-Linked parent_of xs end (suc n) i k c (ground arith) (omega arith) l
