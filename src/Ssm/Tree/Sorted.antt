-- ===== src/Ssm/Tree/Sorted.antt =====
-- packages/ssm-compiler/src/tree.ts, `hierarchyTree`: which assets are placeable, roots and children.
use matchline.Base.{
  ◌≡◌, ◌⊎◌, refl, ap, ◌∙◌, sym, inl, inr, true, false, not, ◌||◌, ◌&&◌, List, [], ◌∷◌, ◌++◌, Option,
  none, some, if◌then◌else◌, arith, Text, text_eq, text_beq_iff, compare_text, ◌==◌, includes,
  includes-append, includes-sort, IsDistinct, IsDistinct-concat, any, All, All-concat, Map, get,
  has, has_of_get, put, get-put, Bool-cases, Option-cases, subst,
}
use matchline.Domain.Snapshot.{ResolvedAssetNode}
use matchline.Ssm.Fold.{CompileSubject}
use matchline.Ssm.Tree.{
  children_at, placeable_from, Sorting, rooted_at, sort_under, sort_node, sort_all, sort_siblings,
}

module _ (nodes : Map Text ResolvedAssetNode) where
  pub placeable_from-includes :
      (seen : List Text) (subjects : List CompileSubject) (x : Text)
      → includes (placeable_from nodes seen subjects) x ≡ (
          includes seen x
          || (any (λ (s : CompileSubject). s.asset_id == x) subjects && has nodes x))
  unfolding placeable_from
  placeable_from-includes seen [] x = ground arith
  placeable_from-includes seen (s ∷ subjects) x =
      elim (Bool-cases (includes seen s.asset_id || not (has nodes s.asset_id))) [
        | inl passed ↦ rw passed (
            ground (
              arith,
              placeable_from-includes seen subjects x,
              text_beq_iff s.asset_id x,
              ap (λ y. includes seen y || not (has nodes y)),
              passed,
            ))
        | inr new ↦ rw new (
            ground (
              arith,
              placeable_from-includes (seen ++ s.asset_id ∷ []) subjects x,
              includes-append seen (s.asset_id ∷ []) x,
              text_beq_iff s.asset_id x,
              ap (has nodes),
              new,
            ))
      ]

  pub placeable_from-IsDistinct :
      (seen : List Text) (subjects : List CompileSubject)
      → IsDistinct seen
      → IsDistinct (placeable_from nodes seen subjects)
  unfolding placeable_from
  placeable_from-IsDistinct seen [] d = d
  placeable_from-IsDistinct seen (s ∷ subjects) d =
      elim (Bool-cases (includes seen s.asset_id || not (has nodes s.asset_id))) [
        | inl passed ↦ rw passed (placeable_from-IsDistinct seen subjects d)
        | inr new ↦ rw new (
            placeable_from-IsDistinct (seen ++ s.asset_id ∷ []) subjects
              (IsDistinct-concat seen s.asset_id d (ground (arith, new))))
      ]

children_at-put :
    (m : Map Text (List Text)) (k a : Text) (ids : List Text)
    → children_at (put m k ids) a ≡ (if k == a then ids else children_at m a)
children_at-put m k a ids = elim (Bool-cases (k == a)) [
  | inl here ↦ rw (get-put m k a ids, here) refl
  | inr there ↦ rw (get-put m k a ids, there) refl
]

includes-children_put :
    (m : Map Text (List Text)) (p q x y : Text)
    → includes (children_at (put m p (children_at m p ++ x ∷ [])) q) y
      ≡ (includes (children_at m q) y || (p == q && x == y))
includes-children_put m p q x y =
    let grown = children_at m p ++ x ∷ [] in
    let read : includes (children_at (put m p grown) q) y
        ≡ includes (if p == q then grown else children_at m q) y =
      ap (λ l. includes l y) (children_at-put m p q grown) in
    elim (Bool-cases (p == q)) [
      | inl here ↦ ground (
        arith,
        read,
        here,
        includes-append (children_at m p) (x ∷ []) y,
        ap (λ z. includes (children_at m z) y) ((text_beq_iff p q).0 here),
      )
      | inr there ↦ ground (arith, read, there)
    ]

pub includes-sort_siblings :
    (m : Map Text (List Text)) (p b : Text)
    → includes (children_at (sort_siblings m) p) b ≡ includes (children_at m p) b
unfolding sort_siblings
includes-sort_siblings [] p b = refl
includes-sort_siblings ((k, siblings) ∷ m) p b = elim (Bool-cases (k == p)) [
  | inl here ↦ rw here (includes-sort compare_text siblings b)
  | inr there ↦ rw there (includes-sort_siblings m p b)
]

-- The asset is a root or a child, as its parent says.
abbrev pub Sorts : List Text → Sorting → Text → Option Text → Type 0
Sorts seen s x none = includes s.roots x ≡ true
Sorts seen s x (some p) =
    if includes seen p
    then includes (children_at s.children_of p) x ≡ true
    else includes s.roots x ≡ true

-- From `s` to `t` nothing that was sorted is lost.
pub record Keeps (s t : Sorting) : Type 0 where
  pub roots : (x : Text) → includes s.roots x ≡ true → includes t.roots x ≡ true
  pub children :
      (p x : Text)
      → includes (children_at s.children_of p) x ≡ true
      → includes (children_at t.children_of p) x ≡ true

Keeps-trans : (s t u : Sorting) → Keeps s t → Keeps t u → Keeps s u
Keeps-trans s t u k l = record {
  roots = λ x h. l.roots x (k.roots x h);
  children = λ p x h. l.children p x (k.children p x h);
}

rooted_at-Keeps : (x : Text) (s : Sorting) → Keeps s (rooted_at x s)
rooted_at-Keeps x s = record {
  roots = λ y h. ground (arith, h, includes-append s.roots (x ∷ []) y);
  children = λ p y h. h;
}

rooted_at-here : (x : Text) (s : Sorting) → includes (rooted_at x s).roots x ≡ true
rooted_at-here x s = ground (arith, includes-append s.roots (x ∷ []) x, text_beq_iff x x)

sort_under-Sorts :
    (seen : List Text) (x : Text) (o : Option Text) (s : Sorting)
    → Keeps s (sort_under seen x o s) × Sorts seen (sort_under seen x o s) x o
sort_under-Sorts seen x none s = (rooted_at-Keeps x s, rooted_at-here x s)
sort_under-Sorts seen x (some p) s = elim (Bool-cases (includes seen p)) [
  | inl known ↦ rw known (
    record {
      roots = λ y h. h;
      children = λ q y h. ground (arith, h, includes-children_put s.children_of p q x y);
    },
    ground (arith, includes-children_put s.children_of p p x x, text_beq_iff p p, text_beq_iff x x),
  )
  | inr unknown ↦ rw unknown (rooted_at-Keeps x s, rooted_at-here x s)
]

Sorts-Keeps :
    (seen : List Text) (s t : Sorting) (x : Text) (o : Option Text)
    → Keeps s t
    → Sorts seen s x o
    → Sorts seen t x o
Sorts-Keeps seen s t x none k h = k.roots x h
Sorts-Keeps seen s t x (some p) k h = elim (Bool-cases (includes seen p)) [
  | inl known ↦ rw known (k.children p x (rw known at h))
  | inr unknown ↦ rw unknown (k.roots x (rw unknown at h))
]

module _ (nodes : Map Text ResolvedAssetNode) (seen : List Text) where
  sort_node-Keeps :
      (x : Text) (o : Option ResolvedAssetNode) (s : Sorting) → Keeps s (sort_node seen x o s)
  sort_node-Keeps x none s = record { roots = λ y h. h; children = λ p y h. h }
  sort_node-Keeps x (some node) s = (sort_under-Sorts seen x node.parent.parent_asset_id s).0

  pub sort_all-Sorts :
      (ids : List Text) (s : Sorting)
      → Keeps s (sort_all nodes seen ids s)
        × ((x : Text) (node : ResolvedAssetNode)
            → includes ids x ≡ true
            → get nodes x ≡ some node
            → Sorts seen (sort_all nodes seen ids s) x node.parent.parent_asset_id)
  unfolding sort_all
  sort_all-Sorts [] s = (record { roots = λ y h. h; children = λ p y h. h }, λ x node h. cc)
  sort_all-Sorts (i ∷ ids) s =
      let next : Sorting = sort_node seen i (get nodes i) s in
      let (keeps, sorts) = sort_all-Sorts ids next in
      (
        Keeps-trans s next (sort_all nodes seen ids next) (sort_node-Keeps i (get nodes i) s) keeps,
        λ x node h found. elim (Bool-cases (i == x)) [
          | inl here ↦
              let same : i ≡ x = (text_beq_iff i x).0 here in
              let at_i : get nodes i ≡ some node = ap (get nodes) same ∙ found in
              let now =
                subst
                  (λ y. Sorts seen (sort_node seen i (some node) s) y node.parent.parent_asset_id)
                  same (sort_under-Sorts seen i node.parent.parent_asset_id s).1 in
              Sorts-Keeps seen next (sort_all nodes seen ids next) x node.parent.parent_asset_id
                keeps (rw at_i now)
          | inr there ↦ sorts x node (ground (arith, h, there)) found
        ],
      )

  -- A node that is sorted becomes a root, or leaves the roots as they are.
  sort_node-roots :
      (x : Text) (s : Sorting)
      → ((sort_node seen x (get nodes x) s).roots ≡ s.roots)
        ⊎ (((sort_node seen x (get nodes x) s).roots ≡ s.roots ++ x ∷ []) × (has nodes x ≡ true))
  sort_node-roots x s = elim (Option-cases (get nodes x)) [
    | inl missing ↦ rw missing (inl refl)
    | inr (node, found) ↦ elim (Option-cases node.parent.parent_asset_id) [
      | inl free ↦ rw (found, free) (inr (refl, has_of_get nodes x node found))
      | inr (p, under) ↦ elim (Bool-cases (includes seen p)) [
        | inl known ↦ rw (found, under, known) (inl refl)
        | inr unknown ↦ rw (found, under, unknown) (inr (refl, has_of_get nodes x node found))
      ]
    ]
  ]

  -- Roots differ from each other, and have nodes.
  pub record AreRoots (roots : List Text) : Type 0 where
    pub apart : IsDistinct roots
    pub known : All (λ r. has nodes r ≡ true) roots

  pub sort_all-AreRoots :
      (ids : List Text) (s : Sorting)
      → IsDistinct ids
      → ((x : Text) → includes ids x ≡ true → includes s.roots x ≡ false)
      → AreRoots s.roots
      → AreRoots (sort_all nodes seen ids s).roots
  unfolding sort_all
  sort_all-AreRoots [] s d fresh a = a
  sort_all-AreRoots (i ∷ ids) s (new, d) fresh a =
      let next : Sorting = sort_node seen i (get nodes i) s in
      let not_yet : includes s.roots i ≡ false = fresh i (ground (arith, text_beq_iff i i)) in
      elim (sort_node-roots i s) [
        | inl same ↦
            sort_all-AreRoots ids next d
              (λ x h. ap (λ l. includes l x) same ∙ fresh x (ground (arith, h)))
              (subst AreRoots (sym same) a)
        | inr (grown, is_node) ↦
            sort_all-AreRoots ids next d
              (λ x h.
                ap (λ l. includes l x) grown
                ∙ ground (
                  arith,
                  h,
                  new,
                  fresh x,
                  includes-append s.roots (i ∷ []) x,
                  text_beq_iff i x,
                  ap (includes ids),
                ))
              (subst AreRoots (sym grown) (record {
                apart = IsDistinct-concat s.roots i a.apart not_yet;
                known = All-concat (λ r. has nodes r ≡ true) s.roots a.known is_node;
              }))
      ]
