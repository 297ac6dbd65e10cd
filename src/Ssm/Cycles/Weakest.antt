-- ===== src/Ssm/Cycles/Weakest.antt =====
-- packages/ssm-compiler/src/compile.ts, `weakestMember`: its choice.
use matchline.Base.{
  ◌≡◌, refl, sym, ap, inl, inr, ℕ, true, ◌&&◌, List, [], ◌∷◌, none, some, Text, text_eq,
  compare_text, ltb, nat_beq, Map, get, get-some_of_has, has, includes, subst, All-of_includes, All,
  Bool-cases,
}
use matchline.Domain.Ladder.{ParentLadderConfig}
use matchline.Domain.Snapshot.{ResolvedAssetNode}
use matchline.Ssm.Cycles.{
  Chosen, chosen_id, weighed, outweighed, rank_of, weakest_from, weakest_member, is_gt,
}

module _ (P : Text → Type 0) where
  -- A choice so far, if there is one, has `P`; a final choice is there.
  abbrev MayChoose : Chosen → Type 0
  MayChoose none = Unit
  MayChoose (some (w, r)) = P w

  abbrev Chooses : Chosen → Type 0
  Chooses chosen = (w : Text) × (r : ℕ) × (chosen ≡ some (w, r)) × P w

  may_of_Chooses : (chosen : Chosen) → Chooses chosen → MayChoose chosen
  may_of_Chooses none (w, r, e, p) = tt
  may_of_Chooses (some (c, k)) (w, r, e, p) =
      subst P (sym (ap (λ (o : Chosen). elim o [ none ↦ w | some q ↦ q.0 ]) e)) p

  outweighed-Chooses :
      (x : Text) (rank : ℕ) (chosen : Chosen)
      → P x
      → MayChoose chosen
      → Chooses (outweighed x rank chosen)
  outweighed-Chooses x rank none p h = (x, rank, refl, p)
  outweighed-Chooses x rank (some (c, r)) p h = elim (Bool-cases (ltb r rank)) [
    | inl heavier ↦ (x, rank, rw heavier, p)
    | inr lighter ↦ elim (Bool-cases (nat_beq rank r && is_gt (compare_text x c))) [
      | inl later ↦ (x, r, rw (lighter, later), p)
      | inr earlier ↦ (c, r, rw (lighter, earlier), h)
    ]
  ]

  module _ (nodes : Map Text ResolvedAssetNode) (ladder : ParentLadderConfig) where
    weighed-Chooses :
        (chosen : Chosen) (x : Text)
        → P x
        → MayChoose chosen
        → has nodes x ≡ true
        → Chooses (weighed ladder chosen x (get nodes x))
    weighed-Chooses chosen x p h known =
        let (node, found) = get-some_of_has nodes x known in
        rw found (outweighed-Chooses x (rank_of ladder node.parent.ladder_source) chosen p h)

    weakest_from-Chooses :
        (chosen : Chosen) (cycle : List Text)
        → Chooses chosen
        → All P cycle
        → All (λ x. has nodes x ≡ true) cycle
        → Chooses (weakest_from nodes ladder chosen cycle)
    unfolding weakest_from
    weakest_from-Chooses chosen [] h _ _ = h
    weakest_from-Chooses chosen (x ∷ cycle) h (p, ps) (k, ks) =
        weakest_from-Chooses (weighed ladder chosen x (get nodes x)) cycle
          (weighed-Chooses chosen x p (may_of_Chooses chosen h) k) ps ks

    weakest_member-some :
        (x : Text) (cycle : List Text)
        → All P (x ∷ cycle)
        → All (λ i. has nodes i ≡ true) (x ∷ cycle)
        → (w : Text) × (weakest_member (x ∷ cycle) nodes ladder ≡ some w) × P w
    unfolding weakest_member weakest_from
    weakest_member-some x cycle (p, ps) (k, ks) =
        let (w, r, e, q) =
          weakest_from-Chooses (weighed ladder none x (get nodes x)) cycle
            (weighed-Chooses none x p tt k) ps ks in
        (w, ap chosen_id e, q)

-- The weakest member of a cycle of known assets is one of them.
pub weakest_member-member :
    (nodes : Map Text ResolvedAssetNode) (ladder : ParentLadderConfig) (x : Text)
    (cycle : List Text)
    → All (λ i. has nodes i ≡ true) (x ∷ cycle)
    → (w : Text) × (weakest_member (x ∷ cycle) nodes ladder ≡ some w)
      × (includes (x ∷ cycle) w ≡ true)
weakest_member-member nodes ladder x cycle known =
    weakest_member-some (λ w. includes (x ∷ cycle) w ≡ true) nodes ladder x cycle
      (All-of_includes _ (x ∷ cycle) (λ a i. i)) known
