-- ===== src/Flow/Loops/Rotation.antt =====
-- packages/electrical-flow/src/cycles.ts, `smallestRotation`: one name for a loop.
use matchline.Base.{
  ◌≡◌, ◌≢◌, refl, ap, ap₂, ◌∙◌, sym, inl, inr, ◌⊎◌, ℕ, zero, suc, ◌+◌, ◌-◌, ◌≤◌, ◌<◌, List, [], ◌∷◌,
  ◌++◌, append_assoc, append-nil, arith, Ordering, Text, length, length-append, take, drop,
  take-append, drop-append, append_take-drop, Bool-cases, le_trans, subst, nat_beq, nat_beq_iff,
}
use matchline.Flow.Nodes.{is_lt}
use matchline.Flow.Order.{compare_paths}
use matchline.Flow.Order.Laws.{compare_paths-IsTotalOrder}
use matchline.Flow.Loops.{rotated, better, smallest_from, smallest_rotation}

-- `q` is `p` with a beginning moved to the end.
pub record IsRotation (p q : List Text) : Type 0 where
  pub before : List Text
  pub after : List Text
  pub whole : p ≡ before ++ after
  pub turned : q ≡ after ++ before

rotated-IsRotation : (p : List Text) (k : ℕ) → IsRotation p (rotated p k)
rotated-IsRotation p k = record {
  before = take k p;
  after = drop k p;
  whole = sym (append_take-drop k p);
  turned = refl;
}

IsRotation-refl : (p : List Text) → IsRotation p p
IsRotation-refl p = record { before = []; after = p; whole = refl; turned = sym (append-nil p) }

IsRotation-swap : (p q : List Text) → IsRotation p q → IsRotation q p
IsRotation-swap p q r = record {
  before = r.after;
  after = r.before;
  whole = r.turned;
  turned = r.whole;
}

-- Two ways to cut a list: one of the cuts comes first.
append-eq_append :
    (a b c d : List Text)
    → a ++ b ≡ c ++ d
    → ((m : List Text) × (c ≡ a ++ m) × (b ≡ m ++ d))
      ⊎ ((m : List Text) × (a ≡ c ++ m) × (d ≡ m ++ b))
append-eq_append [] b c d e = inl (c, refl, e)
append-eq_append (x ∷ a) b [] d e = inr (x ∷ a, refl, sym e)
append-eq_append (x ∷ a) b (y ∷ c) d e =
    let same : x ≡ y = cc in
    let rest : a ++ b ≡ c ++ d = cc in
    elim (append-eq_append a b c d rest) [
      | inl (m, f, g) ↦ inl (m, ap₂ (◌∷◌) (sym same) f, g)
      | inr (m, f, g) ↦ inr (m, ap₂ (◌∷◌) same f, g)
    ]

IsRotation-trans : (p q r : List Text) → IsRotation p q → IsRotation q r → IsRotation p r
IsRotation-trans p q r f g =
    elim (append-eq_append f.after f.before g.before g.after (sym f.turned ∙ g.whole)) [
      | inl (m, e, d) ↦ record {
        before = m;
        after = g.after ++ f.after;
        whole = f.whole ∙ ap (λ x. x ++ f.after) d ∙ append_assoc m g.after f.after;
        turned = g.turned ∙ ap (λ x. g.after ++ x) e ∙ sym (append_assoc g.after f.after m);
      }
      | inr (m, e, d) ↦ record {
        before = f.before ++ g.before;
        after = m;
        whole = f.whole ∙ ap (λ x. f.before ++ x) e ∙ sym (append_assoc f.before g.before m);
        turned = g.turned ∙ ap (λ x. x ++ g.before) d ∙ append_assoc m f.before g.before;
      }
    ]

-- Each rotation is the one at some offset.
rotation_at : (p q : List Text) → IsRotation p q → (k : ℕ) × (k ≤ length p) × (rotated p k ≡ q)
rotation_at p q r = (
  length r.before,
  subst (λ x. length r.before ≤ length x) (sym r.whole)
      (omega (arith, length-append r.before r.after)),
  ap (λ x. rotated x (length r.before)) r.whole
      ∙ ap₂ (◌++◌) (drop-append r.before r.after) (take-append r.before r.after)
      ∙ sym r.turned,
)

abbrev LeastOf : List Text → List Text → Type 0
LeastOf p q = compare_paths p q ≢ Ordering.gt

better-LeastOf : (best p : List Text) → LeastOf (better best p) best × LeastOf (better best p) p
better-LeastOf best p =
    let o = compare_paths-IsTotalOrder.order in
    elim (Bool-cases (is_lt (compare_paths p best))) [
      | inl less ↦ rw less (ground arith, ground (arith, o.swap p p))
      | inr more ↦ rw more (ground (arith, o.swap best best), ground (arith, o.swap p best))
    ]

better-IsRotation :
    (p best q : List Text) → IsRotation p best → IsRotation p q → IsRotation p (better best q)
better-IsRotation p best q r s = elim (Bool-cases (is_lt (compare_paths q best))) [
  | inl less ↦ rw less s
  | inr more ↦ rw more r
]

smallest_from-IsRotation :
    (path : List Text) (n offset : ℕ) (best : List Text)
    → IsRotation path best
    → IsRotation path (smallest_from path n offset best)
unfolding smallest_from
smallest_from-IsRotation path zero offset best r = r
smallest_from-IsRotation path (suc n) offset best r =
    smallest_from-IsRotation path n (suc offset) _
      (better-IsRotation path best (rotated path offset) r (rotated-IsRotation path offset))

-- The loop's result comes after neither what it had nor a rotation that it tries.
smallest_from-LeastOf :
    (path : List Text) (n offset : ℕ) (best : List Text)
    → LeastOf (smallest_from path n offset best) best
      × ((k : ℕ)
          → offset ≤ k
          → k < offset + n
          → LeastOf (smallest_from path n offset best) (rotated path k))
unfolding smallest_from
smallest_from-LeastOf path zero offset best =
    let o = compare_paths-IsTotalOrder.order in
    (ground (arith, o.swap best best), λ k h l. absurd (omega arith))
smallest_from-LeastOf path (suc n) offset best =
    let o = compare_paths-IsTotalOrder.order in
    let next : List Text = better best (rotated path offset) in
    let (of_best, of_new) = better-LeastOf best (rotated path offset) in
    let (of_next, of_rest) = smallest_from-LeastOf path n (suc offset) next in
    (
      le_trans o (smallest_from path n (suc offset) next) next best of_next of_best,
      λ k h l. elim (Bool-cases (nat_beq offset k)) [
        | inl here ↦
            subst (λ j. LeastOf (smallest_from path n (suc offset) next) (rotated path j))
              ((nat_beq_iff offset k).0 here)
              (le_trans o (smallest_from path n (suc offset) next) next (rotated path offset)
                of_next of_new)
        | inr later ↦ of_rest k (ground arith) (omega arith)
      ],
    )

rotated-full : (p : List Text) → rotated p (length p) ≡ p
rotated-full p =
    let dropped : drop (length p) p ≡ [] =
      ap (drop (length p)) (sym (append-nil p)) ∙ drop-append p [] in
    let taken : take (length p) p ≡ p =
      ap (take (length p)) (sym (append-nil p)) ∙ take-append p [] in
    ap₂ (◌++◌) dropped taken

smallest_rotation-long : (p : List Text) → smallest_rotation p ≡ smallest_from p (length p - 1) 1 p
unfolding smallest_rotation smallest_from
smallest_rotation-long [] = refl
smallest_rotation-long (x ∷ []) = refl
smallest_rotation-long (x ∷ y ∷ p) = ground arith

smallest_rotation-LeastOf :
    (p : List Text) (k : ℕ) → k ≤ length p → LeastOf (smallest_rotation p) (rotated p k)
smallest_rotation-LeastOf p k le =
    let (of_path, of_rest) = smallest_from-LeastOf p (length p - 1) 1 p in
    rw (smallest_rotation-long p) (elim (Bool-cases (nat_beq k 0)) [
      | inl first ↦
          subst (λ j. LeastOf (smallest_from p (length p - 1) 1 p) j)
            (sym (ap (rotated p) ((nat_beq_iff k 0).0 first) ∙ append-nil p)) of_path
      | inr later ↦ elim (Bool-cases (nat_beq k (length p))) [
        | inl last ↦
            subst (λ j. LeastOf (smallest_from p (length p - 1) 1 p) j)
              (sym (ap (rotated p) ((nat_beq_iff k (length p)).0 last) ∙ rotated-full p)) of_path
        | inr inner ↦ of_rest k (ground arith) (ground arith)
      ]
    ])

smallest_rotation-IsRotation : (p : List Text) → IsRotation p (smallest_rotation p)
smallest_rotation-IsRotation p =
    rw (smallest_rotation-long p)
      (smallest_from-IsRotation p (length p - 1) 1 p (IsRotation-refl p))

smallest_rotation-least : (p q : List Text) → IsRotation p q → LeastOf (smallest_rotation p) q
smallest_rotation-least p q r =
    let (k, le, e) = rotation_at p q r in
    subst (LeastOf (smallest_rotation p)) e (smallest_rotation-LeastOf p k le)

-- `smallestRotation` turns a loop without changing it, to the rotation that comes before all others, and all
-- rotations of one loop get the same name, wherever the search entered it.
pub smallest_rotation-names :
    (p : List Text)
    → IsRotation p (smallest_rotation p)
      × ((q : List Text)
          → IsRotation p q
          → (compare_paths (smallest_rotation p) q ≢ Ordering.gt)
            × (smallest_rotation q ≡ smallest_rotation p))
smallest_rotation-names p = (
  smallest_rotation-IsRotation p,
  λ q r.
      let o = compare_paths-IsTotalOrder in
      let of_p = smallest_rotation-IsRotation p in
      let of_q = smallest_rotation-IsRotation q in
      let p_least =
        smallest_rotation-least p (smallest_rotation q)
          (IsRotation-trans p q (smallest_rotation q) r of_q) in
      let q_least =
        smallest_rotation-least q (smallest_rotation p)
          (IsRotation-trans q p (smallest_rotation p) (IsRotation-swap p q r) of_p) in
      (
        smallest_rotation-least p q r,
        o.antisym (smallest_rotation q) (smallest_rotation p) (
            ground
              (arith, p_least, q_least, o.order.swap (smallest_rotation p) (smallest_rotation q))),
      ),
)
