-- ===== src/Ssm/Cycles/Links.antt =====
-- packages/ssm-compiler/src/compile.ts, `findCycles`: the map of parents.
use matchline.Base.{
  ◌≡◌, refl, sym, ap, ◌∙◌, suc, true, List, [], ◌∷◌, Option, none, some, if◌then◌else◌, ◌==◌, arith,
  Text, text_eq, text_beq_iff, Map, get, get-put, get-none_of_has, has, keys, length, IsDistinct,
  includes, All, subst,
}
use matchline.Domain.Snapshot.{ResolvedAssetNode}
use matchline.Ssm.Cycles.{link, links_from, search_all, find_cycles}
use matchline.Ssm.Cycles.Roots.{ReachesRoot, IsCutOf, IsCycle, IsBroken}
use matchline.Ssm.Cycles.Found.{search_all-reaches, search_all-cycles}

abbrev pub parent_of_node : Option ResolvedAssetNode → Option Text
parent_of_node none = none
parent_of_node (some node) = node.parent.parent_asset_id

-- The structural parent that the nodes give an asset.
abbrev pub parent_at : Map Text ResolvedAssetNode → Text → Option Text
parent_at nodes x = parent_of_node (get nodes x)

abbrev within : Map Text ResolvedAssetNode → Option Text → Option Text
within nodes none = none
within nodes (some parent_id) = if has nodes parent_id then some parent_id else none

abbrev or_parent : Option Text → Option Text → Option Text
or_parent none o = o
or_parent (some p) o = some p

link-get :
    (nodes : Map Text ResolvedAssetNode) (m : Map Text Text) (i : Text) (o : Option Text) (x : Text)
    → get (link nodes m i o) x ≡ (if i == x then or_parent (within nodes o) (get m x) else get m x)
link-get nodes m i none x = ground arith
link-get nodes m i (some p) x = ground (arith, get-put m i x p)

links_from-get :
    (nodes rest : Map Text ResolvedAssetNode) (m : Map Text Text) (x : Text)
    → IsDistinct (keys rest)
    → get (links_from nodes rest m) x ≡ or_parent (within nodes (parent_at rest x)) (get m x)
unfolding links_from
links_from-get nodes [] m x d = refl
links_from-get nodes ((i, node) ∷ rest) m x (new, d) =
    links_from-get nodes rest (link nodes m i node.parent.parent_asset_id) x d
    ∙ rw (link-get nodes m i node.parent.parent_asset_id x)
        (ground (arith, text_beq_iff i x, get-none_of_has rest i))

-- The asset's parent, if it lies in the compile.
pub links-get :
    (nodes : Map Text ResolvedAssetNode) (x : Text)
    → IsDistinct (keys nodes)
    → get (links_from nodes nodes []) x ≡ within nodes (parent_at nodes x)
links-get nodes x d = links_from-get nodes nodes [] x d ∙ ground arith

-- All parents lie in the compile.
abbrev pub IsClosed : Map Text ResolvedAssetNode → Type 0
IsClosed nodes = (x p : Text) → parent_at nodes x ≡ some p → has nodes p ≡ true

within-closed :
    (nodes : Map Text ResolvedAssetNode) (o : Option Text)
    → ((p : Text) → o ≡ some p → has nodes p ≡ true)
    → within nodes o ≡ o
within-closed nodes none h = refl
within-closed nodes (some p) h = rw (h p refl) refl

within-has :
    (nodes : Map Text ResolvedAssetNode) (o : Option Text) (p : Text)
    → within nodes o ≡ some p
    → has nodes p ≡ true
within-has nodes none p e = cc
within-has nodes (some q) p e = ground arith

length-keys : (nodes : Map Text ResolvedAssetNode) → length (keys nodes) ≡ length nodes
length-keys [] = refl
length-keys ((i, node) ∷ nodes) = ap suc (length-keys nodes)

module _ (nodes : Map Text ResolvedAssetNode) (distinct : IsDistinct (keys nodes)) where
  abbrev parent_of : Map Text Text
  parent_of = links_from nodes nodes []

  inside : (x y : Text) → get parent_of x ≡ some y → includes (keys nodes) y ≡ true
  inside x y e = within-has nodes (parent_at nodes x) y (sym (links-get nodes x distinct) ∙ e)

  pub has_of_link : (x y : Text) → get parent_of x ≡ some y → has nodes x ≡ true
  has_of_link x y e = ground (arith, links-get nodes x distinct, get-none_of_has nodes x)

  pub links-closed : IsClosed nodes → (x : Text) → get parent_of x ≡ parent_at nodes x
  links-closed c x = links-get nodes x distinct ∙ within-closed nodes (parent_at nodes x) (c x)

  -- Once some member of each found cycle has lost its parent, every asset that the search started
  -- from reaches a root, if the other parents are the old ones or none.
  pub find_cycles-reaches :
      (ids : List Text) (up : Text → Option Text)
      → All (λ i. has nodes i ≡ true) ids
      → IsCutOf up (get parent_of)
      → All (IsBroken up) (find_cycles nodes ids)
      → All (ReachesRoot up) ids
  unfolding find_cycles
  find_cycles-reaches ids up known cut broken =
      search_all-reaches parent_of (keys nodes) inside up cut (record { settled = []; cycles = [] })
        ids (λ x i. cc) known (rw (length-keys nodes) broken)

  pub find_cycles-cycles :
      (ids : List Text)
      → All (λ i. has nodes i ≡ true) ids
      → All (IsCycle parent_of) (find_cycles nodes ids)
  unfolding find_cycles
  find_cycles-cycles ids known =
      subst
        (λ n.
          All (IsCycle parent_of)
            (search_all (suc n) parent_of (record { settled = []; cycles = [] }) ids).cycles)
        (length-keys nodes)
        (search_all-cycles parent_of (keys nodes) inside (record { settled = []; cycles = [] }) ids
          known tt)
