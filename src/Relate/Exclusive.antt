-- ===== src/Relate/Exclusive.antt =====
-- packages/relationship-claims/src/assemble.ts, `assembleRelationshipClaims`: the rungs of tiers 4 and 5.
use matchline.Base.{
  ◌≡◌, ◌≢◌, inl, inr, ℕ, true, false, List, [], ◌∷◌, Option, none, some, ◌==◌, arith, Text, text_eq,
  text_beq_iff, Map, get, keys, includes, includes-add, add, All-imp, Bool-cases,
}
use matchline.Domain.Ladder.{flow_family, family_role}
use matchline.Domain.Claim.{SsmRelationshipClaim}
use matchline.Relate.Types.{ClaimSubject, FlowEdgeInput, ProfileSourceRef}
use matchline.Relate.Assemble.{Assembly, pair_fault, pair_key}
use matchline.Relate.Family.{
  take_edge, same_family, anchored, anchor, rule_for, depend, FamilyMember, take_members, nested,
  take_children, take_parents, take_families, in_order,
}
use matchline.Relate.StatedClaims.{Holds, checked-Holds, push-Holds}

abbrev pub key_of : SsmRelationshipClaim → Text
key_of c = pair_key c.subject_asset_id c.target_asset_id

-- The pair of a claim from the flow rung is anchored.
abbrev pub IsAnchored : List Text → SsmRelationshipClaim → Type 0
IsAnchored pairs c = c.ladder_source ≡ flow_family → includes pairs (key_of c) ≡ true

-- Before tier 5 there is no claim of its rung.
abbrev pub Before : List Text → SsmRelationshipClaim → Type 0
Before pairs c = IsAnchored pairs c × (c.ladder_source ≢ family_role)

-- From then on, the pair of each claim of that rung is not anchored.
abbrev pub After : List Text → SsmRelationshipClaim → Type 0
After pairs c =
    IsAnchored pairs c × (c.ladder_source ≡ family_role → includes pairs (key_of c) ≡ false)

Before-add :
    (pairs : List Text) (k : Text) (c : SsmRelationshipClaim)
    → Before pairs c
    → Before (add pairs k) c
Before-add pairs k c (i, n) = (λ e. ground (arith, i e, includes-add pairs k (key_of c)), n)

module _ (by_id : Map Text ClaimSubject) (rules : Map Text ℕ) where
  anchor-Before :
      (edge : FlowEdgeInput) (parent child : ClaimSubject) (o : Option (ℕ × Text × Text))
      (a : Assembly)
      → Holds Before a
      → Holds Before (anchor edge parent child o a)
  anchor-Before edge parent child none a s = s
  anchor-Before edge parent child (some (n, r, q)) a s =
      let k : Text = pair_key child.asset_id parent.asset_id in
      push-Holds Before (keys by_id) _ (record a { anchored_pairs = add a.anchored_pairs k })
        (All-imp {P = Before a.anchored_pairs} (Before-add a.anchored_pairs k) a.structural s)
        (λ e. ground (arith, includes-add a.anchored_pairs k k, text_beq_iff k k), λ e. cc)

  anchored-Before :
      (edge : FlowEdgeInput) (o c : Option ClaimSubject) (a : Assembly)
      → Holds Before a
      → Holds Before (anchored rules edge o c a)
  anchored-Before edge none c a s = s
  anchored-Before edge (some parent) none a s = s
  anchored-Before edge (some parent) (some child) a s =
      elim (Bool-cases (same_family parent.family_key child.family_key)) [
        | inr apart ↦ rw apart s
        | inl same ↦
            rw same (anchor-Before edge parent child (rule_for rules parent.role child.role) a s)
      ]

  pub take_edge-Before :
      (n : ℕ) (edge : FlowEdgeInput) (a : Assembly)
      → Holds Before a
      → Holds Before (take_edge by_id rules n edge a)
  unfolding take_edge
  take_edge-Before n edge a s =
      checked-Holds Before (pair_fault (keys by_id) edge.to_asset_id edge.from_asset_id) _ _ _ _ a s
        (anchored-Before edge (get by_id edge.from_asset_id) (get by_id edge.to_asset_id)
          (depend edge a) s)

module _ (source : ProfileSourceRef) (rules : Map Text ℕ) where
  nested-After :
      (parent child : FamilyMember) (o : Option ℕ) (a : Assembly)
      → Holds After a
      → Holds After (nested source rules parent child o a)
  nested-After parent child none a s = s
  nested-After parent child (some n) a s =
      elim (Bool-cases (includes a.anchored_pairs (pair_key child.asset_id parent.asset_id))) [
        | inl taken ↦ rw taken s
        | inr free ↦ rw free (push-Holds After [] _ a s (λ e. cc, λ e. free))
      ]

  take_members-After :
      (parent child : FamilyMember) (a : Assembly)
      → Holds After a
      → Holds After (take_members source rules parent child a)
  unfolding take_members
  take_members-After parent child a s = elim (Bool-cases (parent.asset_id == child.asset_id)) [
    | inl same ↦ rw same s
    | inr apart ↦
        rw apart (nested-After parent child (get rules (pair_key parent.role child.role)) a s)
  ]

  take_children-After :
      (parent : FamilyMember) (children : List FamilyMember) (a : Assembly)
      → Holds After a
      → Holds After (take_children source rules parent children a)
  unfolding take_children
  take_children-After parent [] a s = s
  take_children-After parent (child ∷ children) a s =
      take_children-After parent children (take_members source rules parent child a)
        (take_members-After parent child a s)

  take_parents-After :
      (parents ordered : List FamilyMember) (a : Assembly)
      → Holds After a
      → Holds After (take_parents source rules parents ordered a)
  unfolding take_parents
  take_parents-After [] ordered a s = s
  take_parents-After (parent ∷ parents) ordered a s =
      take_parents-After parents ordered (take_children source rules parent ordered a)
        (take_children-After parent ordered a s)

  pub take_families-After :
      (families : List (List FamilyMember)) (a : Assembly)
      → Holds After a
      → Holds After (take_families source rules families a)
  unfolding take_families
  take_families-After [] a s = s
  take_families-After (members ∷ families) a s =
      take_families-After families
        (take_parents source rules (in_order source rules members) (in_order source rules members)
          a)
        (take_parents-After (in_order source rules members) (in_order source rules members) a s)
