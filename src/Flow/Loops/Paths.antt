-- ===== src/Flow/Loops/Paths.antt =====
-- packages/electrical-flow/src/cycles.ts, `representativeCycle`: paths over arcs, and climbing `parents`.
use matchline.Base.{
  ◌≡◌, refl, ap, ◌∙◌, sym, ℕ, zero, suc, ◌≤◌, true, false, List, [], ◌∷◌, ◌++◌, append-nil, reverse,
  none, some, arith, Text, text_eq, text_beq_iff, includes, length, Map, get, has, put, get-put,
  has_of_get, subst,
}
use mathlib.Core.List.{reverse-cons}
use matchline.Flow.Cycles.{FeedAdjacency, targets_of}
use matchline.Flow.Loops.{path_up}
use matchline.Flow.Loops.Rotation.{IsRotation}

abbrev pub head_of : List Text → Text → Text
head_of [] end = end
head_of (x ∷ xs) end = x

module _ (adjacency : FeedAdjacency) where
  abbrev pub Arc : Text → Text → Type 0
  Arc a b = includes (targets_of adjacency a) b ≡ true

  -- Each node of the list has an arc to the next, and the last to `end`.
  abbrev pub Arcs : List Text → Text → Type 0
  Arcs [] end = Unit
  Arcs (x ∷ xs) end = Arc x (head_of xs end) × Arcs xs end

  -- A closed list of arcs.
  abbrev pub IsLoop : List Text → Type 0
  IsLoop [] = ⊥
  IsLoop (x ∷ xs) = Arcs (x ∷ xs) x

  Arcs-append :
      (xs ys : List Text) (end : Text)
      → Arcs xs (head_of ys end)
      → Arcs ys end
      → Arcs (xs ++ ys) end
  Arcs-append [] ys end _ b = b
  Arcs-append (x ∷ []) ys end (a, _) b = (a, b)
  Arcs-append (x ∷ z ∷ xs) ys end (a, more) b = (a, Arcs-append (z ∷ xs) ys end more b)

  Arcs-of_append :
      (xs ys : List Text) (end : Text)
      → Arcs (xs ++ ys) end
      → Arcs xs (head_of ys end) × Arcs ys end
  Arcs-of_append [] ys end b = (tt, b)
  Arcs-of_append (x ∷ []) ys end (a, b) = ((a, tt), b)
  Arcs-of_append (x ∷ z ∷ xs) ys end (a, more) =
      let (front, back) = Arcs-of_append (z ∷ xs) ys end more in ((a, front), back)

  turned-IsLoop : (b a : List Text) → IsLoop (b ++ a) → IsLoop (a ++ b)
  turned-IsLoop [] a h = subst IsLoop (sym (append-nil a)) h
  turned-IsLoop (x ∷ b) [] h = subst IsLoop (append-nil (x ∷ b)) h
  turned-IsLoop (x ∷ b) (y ∷ a) h =
      let (front, back) = Arcs-of_append (x ∷ b) (y ∷ a) x h in
      Arcs-append (y ∷ a) (x ∷ b) y back front

  pub rotation-IsLoop : (p q : List Text) → IsRotation p q → IsLoop p → IsLoop q
  rotation-IsLoop p q r h =
      subst IsLoop (sym r.turned) (turned-IsLoop r.before r.after (subst IsLoop r.whole h))

  module _ (start : Text) where
    -- The path from a node up to `start`.
    pub data Up (parents : Map Text Text) : Text → List Text → Type 0 where
      top : Up parents start (start ∷ [])
      up :
          {c p : Text} {l : List Text}
          → get parents c ≡ some p
          → Up parents p l
          → Up parents c (c ∷ l)

    path_up-none : (fuel : ℕ) (m : Map Text Text) → path_up fuel m none ≡ []
    unfolding path_up
    path_up-none zero m = refl
    path_up-none (suc fuel) m = refl

    pub path_up-Up :
        {m : Map Text Text} {c : Text} {l : List Text}
        → Up m c l
        → (fuel : ℕ) → get m start ≡ none
        → length l ≤ fuel
        → path_up fuel m (some c) ≡ l
    unfolding path_up
    path_up-Up (top) zero free le = absurd (omega (arith, le))
    path_up-Up {m} (top) (suc fuel) free le =
        ap (◌∷◌ start) (ap (path_up fuel m) free ∙ path_up-none fuel m)
    path_up-Up (up e u) zero free le = absurd (omega (arith, le))
    path_up-Up {m} (up {c} e u) (suc fuel) free le =
        ap (◌∷◌ c) (ap (path_up fuel m) e ∙ path_up-Up u fuel free (omega (arith, le)))

    -- A new entry leaves the paths as they are.
    pub Up-put :
        {m : Map Text Text} {c : Text} {l : List Text}
        → Up m c l
        → (k v : Text) → has m k ≡ false
        → Up (put m k v) c l
    Up-put top k v new = top
    Up-put {m} (up {c} {p} e u) k v new =
        up
          (ground
            (arith, get-put m k c v, has_of_get m c p e, new, text_beq_iff k c, ap (has m), e))
          (Up-put u k v new)

    -- From the top down, the path is one of arcs.
    pub reverse-Arcs :
        {m : Map Text Text} {c : Text} {l : List Text}
        → Up m c l
        → ((x y : Text) → get m x ≡ some y → Arc y x)
        → (end : Text) → Arc c end
        → Arcs (reverse l) end × (head_of (reverse l) end ≡ start)
    reverse-Arcs top arcs end a = ((a, tt), refl)
    reverse-Arcs {m} (up {c} {p} {l} e u) arcs end a =
        let (above, first) = reverse-Arcs u arcs c (arcs c p e) in
        let split : reverse (c ∷ l) ≡ reverse l ++ c ∷ [] = reverse-cons c l in
        (
          subst (λ z. Arcs z end) (sym split) (Arcs-append (reverse l) (c ∷ []) end above (a, tt)),
          ap (λ z. head_of z end) split ∙ head_concat (reverse l) c end ∙ first,
        )
      where
        head_concat : (xs : List Text) (z w : Text) → head_of (xs ++ z ∷ []) w ≡ head_of xs z
        head_concat [] z w = refl
        head_concat (x ∷ xs) z w = refl

    pub closed-IsLoop :
        (p : List Text) → Arcs p start → head_of p start ≡ start → (1 ≤ length p) → IsLoop p
    closed-IsLoop [] a h long = absurd (omega (arith, long))
    closed-IsLoop (x ∷ p) a h long = subst (λ z. Arcs (x ∷ p) z) (sym h) a
