-- ===== src/Ssm/Tree/Kept.antt =====
-- packages/ssm-compiler/src/tree.ts: the guard holds each asset once, as the built roots do.
use matchline.Base.{
  ◌≡◌, refl, ap, ◌∙◌, sym, inl, inr, ℕ, zero, suc, ◌+◌, ◌≤◌, true, false, List, [], ◌∷◌, ◌++◌,
  Option, none, some, if◌then◌else◌, arith, Text, text_eq, text_beq_iff, ◌==◌, includes, IsDistinct,
  Map, get, get-put, has, has_of_get, Bool-cases, Option-cases, subst,
}
use matchline.Domain.Snapshot.{ResolvedAssetNode}
use matchline.Ssm.Tree.{
  HierarchyAssetNode, Grown, grow_all, children_at, grow_asset, Growing, with_built, grow_roots,
}
use matchline.Ssm.Tree.Counts.{
  one_if, count_in, count_in-concat, count_in-missing, occurs_maybe, CountsAll, grow_asset-dropped,
  grow_asset-grown,
}
use matchline.Ssm.Tree.Filed.{sum_over, held_by}

module _ (nodes : Map Text ResolvedAssetNode) (children_of : Map Text (List Text)) where
  -- A guard holds assets that have nodes, each once.
  abbrev pub IsGuard : List Text → Type 0
  IsGuard guard = (x : Text) → count_in x guard ≤ one_if (has nodes x)

  abbrev pub KeepsGuard : (Text → List Text → Grown) → Type 0
  KeepsGuard grow = (id : Text) (guard : List Text) → IsGuard guard → IsGuard (grow id guard).guard

  pub grow_all-KeepsGuard :
      (grow : Text → List Text → Grown)
      → KeepsGuard grow
      → (ids guard : List Text) → IsGuard guard
      → IsGuard (grow_all grow ids guard).guard
  unfolding grow_all
  grow_all-KeepsGuard grow k [] guard g = g
  grow_all-KeepsGuard grow k (id ∷ ids) guard g =
      grow_all-KeepsGuard grow k ids (grow id guard).guard (k id guard g)

  IsGuard-concat :
      (guard : List Text) (id : Text) (node : ResolvedAssetNode)
      → includes guard id ≡ false
      → get nodes id ≡ some node
      → IsGuard guard
      → IsGuard (guard ++ id ∷ [])
  IsGuard-concat guard id node new found g x = elim (Bool-cases (id == x)) [
    | inl here ↦
        let same : id ≡ x = (text_beq_iff id x).0 here in
        let absent : includes guard x ≡ false = subst (λ y. includes guard y ≡ false) same new in
        let known : has nodes x ≡ true =
          subst (λ y. has nodes y ≡ true) same (has_of_get nodes id node found) in
        ground (arith, count_in-concat x id guard, count_in-missing x guard absent, known, here)
    | inr there ↦ ground (arith, count_in-concat x id guard, g x, there)
  ]

  pub grow_asset-KeepsGuard : (fuel : ℕ) → KeepsGuard (grow_asset nodes children_of fuel)
  unfolding grow_asset
  grow_asset-KeepsGuard zero id guard g = g
  grow_asset-KeepsGuard (suc fuel) id guard g =
      elim (Option-cases (if includes guard id then none else get nodes id)) [
        | inl dropped ↦ rw (grow_asset-dropped nodes children_of (suc fuel) id guard dropped) g
        | inr (node, grown) ↦ elim (Bool-cases (includes guard id)) [
          | inl old ↦ let never : none ≡ some node = sym (rw old refl) ∙ grown in cc
          | inr new ↦
              let found : get nodes id ≡ some node = sym (rw new refl) ∙ grown in
              rw (grow_asset-grown nodes children_of fuel id guard node grown) (
                grow_all-KeepsGuard (grow_asset nodes children_of fuel) (grow_asset-KeepsGuard fuel)
                  (children_at children_of id) (guard ++ id ∷ [])
                  (IsGuard-concat guard id node new found g))
        ]
      ]

module _ (grow : Text → List Text → Grown) where
  pub grow_roots-guard :
      (roots : List Text) (g : Growing)
      → (grow_roots grow roots g).guard ≡ (grow_all grow roots g.guard).guard
  unfolding grow_roots grow_all
  grow_roots-guard [] g = refl
  grow_roots-guard (r ∷ roots) g =
      let grown : Grown = grow r g.guard in
      grow_roots-guard roots
        (record { built = with_built r grown.tree g.built; guard = grown.guard })

  get-with_built :
      (r x : Text) (o : Option HierarchyAssetNode) (built : Map Text HierarchyAssetNode)
      → (r == x) ≡ false
      → get (with_built r o built) x ≡ get built x
  get-with_built r x none built apart = refl
  get-with_built r x (some tree) built apart = get-put built r x tree ∙ rw apart refl

  get-with_built_own :
      (r : Text) (o : Option HierarchyAssetNode) (built : Map Text HierarchyAssetNode)
      → get built r ≡ none
      → get (with_built r o built) r ≡ o
  get-with_built_own r none built new = new
  get-with_built_own r (some tree) built new =
      get-put built r r tree ∙ rw ((text_beq_iff r r).1 refl) refl

  get-grow_roots :
      (roots : List Text) (g : Growing) (x : Text)
      → includes roots x ≡ false
      → get (grow_roots grow roots g).built x ≡ get g.built x
  unfolding grow_roots
  get-grow_roots [] g x away = refl
  get-grow_roots (r ∷ roots) g x away =
      let grown : Grown = grow r g.guard in
      get-grow_roots roots (record { built = with_built r grown.tree g.built; guard = grown.guard })
        x (ground (arith, away))
      ∙ get-with_built r x grown.tree g.built (ground (arith, away))

  -- What the built roots hold is what was put into the guard.
  pub grow_roots-counts :
      (x : Text)
      → CountsAll grow x
      → (roots : List Text) (g : Growing) → IsDistinct roots
      → ((r : Text) → includes roots r ≡ true → get g.built r ≡ none)
      → sum_over (held_by (grow_roots grow roots g).built x) roots + count_in x g.guard
        ≡ count_in x (grow_roots grow roots g).guard
  unfolding grow_roots
  grow_roots-counts x counts [] g d fresh = omega arith
  grow_roots-counts x counts (r ∷ roots) g (new, d) fresh =
      let grown : Grown = grow r g.guard in
      let next : Growing = record {
        built = with_built r grown.tree g.built;
        guard = grown.guard;
      } in
      let own : get (grow_roots grow roots next).built r ≡ grown.tree =
        get-grow_roots roots next r new
        ∙ get-with_built_own r grown.tree g.built (fresh r (ground (arith, text_beq_iff r r))) in
      let apart : (y : Text) → includes roots y ≡ true → (r == y) ≡ false =
        λ y h. ground (arith, h, new, text_beq_iff r y, ap (includes roots)) in
      let rest =
        grow_roots-counts x counts roots next d (λ y h.
          get-with_built r y grown.tree g.built (apart y h) ∙ fresh y (ground (arith, h))) in
      omega (arith, rest, counts r g.guard, ap (occurs_maybe x) own)
