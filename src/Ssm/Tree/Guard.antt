-- ===== src/Ssm/Tree/Guard.antt =====
-- packages/ssm-compiler/src/tree.ts, `assetNode`: the guard ends as a set that is closed under children.
use matchline.Base.{
  ◌≡◌, refl, ◌∙◌, sym, inl, inr, ℕ, zero, suc, ◌≤◌, ◌<◌, true, false, ◌||◌, List, [], ◌∷◌, ◌++◌,
  none, some, if◌then◌else◌, arith, Text, text_eq, text_beq_iff, ◌==◌, includes, includes-append,
  length, Map, get, has, get-some_of_has, Bool-cases, Option-cases, subst,
}
use matchline.Domain.Snapshot.{ResolvedAssetNode}
use matchline.Flow.Weights.{weight_left, weight_left-seen, weight_left_sub}
use matchline.Ssm.Tree.{Grown, grow_all, children_at, grow_asset}
use matchline.Ssm.Tree.Counts.{grow_asset-dropped, grow_asset-grown}

module _ (nodes : Map Text ResolvedAssetNode) (children_of : Map Text (List Text)) where
  -- From `guard` to `after`: nothing is lost, the assets of `ids` are in, and with each asset that is new
  -- its children are.
  pub record Covers (ids guard after : List Text) : Type 0 where
    pub keeps : (x : Text) → includes guard x ≡ true → includes after x ≡ true
    pub takes : (x : Text) → includes ids x ≡ true → has nodes x ≡ true → includes after x ≡ true
    pub fills :
        (a b : Text)
        → includes guard a ≡ false
        → includes after a ≡ true
        → includes (children_at children_of a) b ≡ true
        → has nodes b ≡ true
        → includes after b ≡ true

  -- How many assets the guard lacks.
  abbrev missing_from : List Text → ℕ
  missing_from guard = weight_left (λ (n : ResolvedAssetNode). 1) (includes guard) nodes

  missing_from-keeps :
      (guard after : List Text)
      → ((x : Text) → includes guard x ≡ true → includes after x ≡ true)
      → missing_from after ≤ missing_from guard
  missing_from-keeps guard after h =
      weight_left_sub (λ (n : ResolvedAssetNode). 1) (includes guard) (includes after) nodes h

  includes-one :
      (guard : List Text) (id x : Text)
      → includes (guard ++ id ∷ []) x ≡ (includes guard x || (id == x))
  includes-one guard id x = ground (arith, includes-append guard (id ∷ []) x)

  missing_from-one :
      (guard : List Text) (id : Text) (node : ResolvedAssetNode)
      → includes guard id ≡ false
      → get nodes id ≡ some node
      → missing_from (guard ++ id ∷ []) < missing_from guard
  missing_from-one guard id node new found = omega (
    arith,
    weight_left-seen (λ (n : ResolvedAssetNode). 1) (includes guard) (includes (guard ++ id ∷ []))
        id node nodes (includes-one guard id) new found,
  )

  -- With enough fuel, `grow` covers an asset.
  abbrev CoversEach : (Text → List Text → Grown) → ℕ → Type 0
  CoversEach grow fuel =
      (id : Text) (guard : List Text)
      → missing_from guard < fuel
      → Covers (id ∷ []) guard (grow id guard).guard

  Covers-trans :
      (id : Text) (ids guard middle after : List Text)
      → Covers (id ∷ []) guard middle
      → Covers ids middle after
      → Covers (id ∷ ids) guard after
  Covers-trans id ids guard middle after c d = record {
    keeps = λ x h. d.keeps x (c.keeps x h);
    takes = λ x h n. elim (Bool-cases (id == x)) [
      | inl here ↦ d.keeps x (c.takes x (ground (arith, here)) n)
      | inr there ↦ d.takes x (ground (arith, h, there)) n
    ];
    fills = λ a b out in_ child n. elim (Bool-cases (includes middle a)) [
      | inl early ↦ d.keeps b (c.fills a b out early child n)
      | inr late ↦ d.fills a b late in_ child n
    ];
  }

  grow_all-Covers :
      (grow : Text → List Text → Grown) (fuel : ℕ)
      → CoversEach grow fuel
      → (ids guard : List Text) → missing_from guard < fuel
      → Covers ids guard (grow_all grow ids guard).guard
  unfolding grow_all
  grow_all-Covers grow fuel each [] guard le = record {
    keeps = λ x h. h;
    takes = λ x h n. cc;
    fills = λ a b out in_ child n. cc;
  }
  grow_all-Covers grow fuel each (id ∷ ids) guard le =
      let first = each id guard le in
      Covers-trans id ids guard (grow id guard).guard _ first (
        grow_all-Covers grow fuel each ids (grow id guard).guard
          (omega (arith, le, missing_from-keeps guard (grow id guard).guard first.keeps)))

  -- An asset that is dropped was in the guard, or has no node.
  dropped-Covers :
      (id : Text) (guard : List Text)
      → (if includes guard id then none else get nodes id) ≡ none
      → Covers (id ∷ []) guard guard
  dropped-Covers id guard dropped = record {
    keeps = λ x h. h;
    takes = λ x h n.
        let same : id ≡ x = (text_beq_iff id x).0 (ground (arith, h)) in
        let known : has nodes id ≡ true = subst (λ y. has nodes y ≡ true) (sym same) n in
        let (node, found) = get-some_of_has nodes id known in
        elim (Bool-cases (includes guard id)) [
          | inl old ↦ subst (λ y. includes guard y ≡ true) same old
          | inr new ↦ let none_there : get nodes id ≡ none = sym (rw new refl) ∙ dropped in cc
        ];
    fills = λ a b out in_ child n. cc;
  }

  grown-Covers :
      (id : Text) (guard after : List Text)
      → Covers (children_at children_of id) (guard ++ id ∷ []) after
      → Covers (id ∷ []) guard after
  grown-Covers id guard after c = record {
    keeps = λ x h. c.keeps x (ground (arith, h, includes-one guard id x));
    takes = λ x h n. c.keeps x (ground (arith, h, includes-one guard id x));
    fills = λ a b out in_ child n. elim (Bool-cases (id == a)) [
      | inl here ↦
          let same : id ≡ a = (text_beq_iff id a).0 here in
          c.takes b (subst (λ y. includes (children_at children_of y) b ≡ true) (sym same) child) n
      | inr there ↦ c.fills a b (ground (arith, out, there, includes-one guard id a)) in_ child n
    ];
  }

  pub grow_asset-Covers : (fuel : ℕ) → CoversEach (grow_asset nodes children_of fuel) fuel
  grow_asset-Covers zero id guard le = absurd (omega (arith, le))
  grow_asset-Covers (suc fuel) id guard le =
      elim (Option-cases (if includes guard id then none else get nodes id)) [
        | inl dropped ↦
            rw (grow_asset-dropped nodes children_of (suc fuel) id guard dropped)
              (dropped-Covers id guard dropped)
        | inr (node, grown) ↦ elim (Bool-cases (includes guard id)) [
          | inl old ↦ let never : none ≡ some node = sym (rw old refl) ∙ grown in cc
          | inr new ↦
              let found : get nodes id ≡ some node = sym (rw new refl) ∙ grown in
              rw (grow_asset-grown nodes children_of fuel id guard node grown) (
                grown-Covers id guard _ (
                  grow_all-Covers (grow_asset nodes children_of fuel) fuel (grow_asset-Covers fuel)
                    (children_at children_of id) (guard ++ id ∷ [])
                    (omega (arith, le, missing_from-one guard id node new found))))
        ]
      ]

  missing_from-le : (guard : List Text) → missing_from guard ≤ length nodes
  missing_from-le guard = counted nodes
    where
      counted :
          (m : Map Text ResolvedAssetNode)
          → weight_left (λ (n : ResolvedAssetNode). 1) (includes guard) m ≤ length m
      counted [] = omega arith
      counted ((k, n) ∷ m) = ground (arith, counted m)

  -- The fuel that `hierarchyTree` gives is enough.
  pub grow_all-closed :
      (ids guard : List Text)
      → Covers ids guard
          (grow_all (grow_asset nodes children_of (suc (length nodes))) ids guard).guard
  grow_all-closed ids guard =
      grow_all-Covers (grow_asset nodes children_of (suc (length nodes))) (suc (length nodes))
        (grow_asset-Covers (suc (length nodes))) ids guard (omega (arith, missing_from-le guard))
