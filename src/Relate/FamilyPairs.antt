-- ===== src/Relate/FamilyPairs.antt =====
-- packages/relationship-claims/src/assemble.ts: the claims of tiers 4 and 5.
use matchline.Base.{
  ◌≡◌, refl, inl, inr, ℕ, true, List, [], ◌∷◌, Option, none, some, ◌==◌, arith, add, Text, text_eq,
  text_beq_iff, Map, get, keys, values, All, All-concat, All-put, All_get, All-sort, includes,
  Bool-cases,
}
use matchline.Relate.Types.{ClaimSubject, FlowEdgeInput, ProfileSourceRef}
use matchline.Relate.Assemble.{pair_key, Assembly, pair_fault}
use matchline.Relate.Family.{
  take_edge, same_family, anchored, anchor, rule_for, depend, FamilyMember, group_families,
  join_family, joined, take_members, nested, take_children, take_parents, take_families,
}
use matchline.Relate.Pairs.{
  IsPair, IsPairClaim, Sound, pair_fault-none, checked-Sound, push-Sound, AreKeyed, get-keyed,
}

module _ (by_id : Map Text ClaimSubject) (keyed : AreKeyed by_id) (rules : Map Text ℕ) where
  abbrev ids : List Text
  ids = keys by_id

  anchor-Sound :
      (edge : FlowEdgeInput) (parent child : ClaimSubject) (o : Option (ℕ × Text × Text))
      (a : Assembly)
      → Sound ids a
      → IsPair ids child.asset_id parent.asset_id
      → Sound ids (anchor edge parent child o a)
  anchor-Sound edge parent child none a s p = s
  anchor-Sound edge parent child (some (n, r, q)) a s p =
      push-Sound ids _
        (record a {
          anchored_pairs = add a.anchored_pairs (pair_key child.asset_id parent.asset_id);
        })
        s p

  anchored-Sound :
      (edge : FlowEdgeInput) (o c : Option ClaimSubject) (a : Assembly)
      → get by_id edge.from_asset_id ≡ o
      → get by_id edge.to_asset_id ≡ c
      → Sound ids a
      → IsPair ids edge.to_asset_id edge.from_asset_id
      → Sound ids (anchored rules edge o c a)
  anchored-Sound edge none c a e f s p = s
  anchored-Sound edge (some parent) none a e f s p = s
  anchored-Sound edge (some parent) (some child) a e f s p =
      elim (Bool-cases (same_family parent.family_key child.family_key)) [
        | inr apart ↦ rw apart s
        | inl same ↦ rw same (
            anchor-Sound edge parent child (rule_for rules parent.role child.role) a s (
              rw
                (
                  get-keyed by_id edge.from_asset_id parent keyed e,
                  get-keyed by_id edge.to_asset_id child keyed f,
                )
                p))
      ]

  depend-Sound :
      (edge : FlowEdgeInput) (a : Assembly)
      → Sound ids a
      → IsPair ids edge.to_asset_id edge.from_asset_id
      → Sound ids (depend edge a)
  depend-Sound edge a (s, d) p = (s, All-concat (IsPairClaim ids) a.dependencies d p)

  pub take_edge-Sound :
      (n : ℕ) (edge : FlowEdgeInput) (a : Assembly)
      → Sound ids a
      → Sound ids (take_edge by_id rules n edge a)
  unfolding take_edge
  take_edge-Sound n edge a s =
      checked-Sound ids (pair_fault ids edge.to_asset_id edge.from_asset_id) _ _ _ _ a s (λ e.
        let p = pair_fault-none ids edge.to_asset_id edge.from_asset_id e in
        anchored-Sound edge (get by_id edge.from_asset_id) (get by_id edge.to_asset_id)
          (depend edge a) refl refl (depend-Sound edge a s p) p)

module _ (known : List Text) where
  abbrev IsMember : FamilyMember → Type 0
  IsMember m = includes known m.asset_id ≡ true

  abbrev AreFamilies : Map Text (List FamilyMember) → Type 0
  AreFamilies families = All (All IsMember) (values families)

  joined-IsMember :
      (o : Option (List FamilyMember)) (m : FamilyMember)
      → ((ms : List FamilyMember) → o ≡ some ms → All IsMember ms)
      → IsMember m
      → All IsMember (joined o m)
  joined-IsMember none m h i = (i, tt)
  joined-IsMember (some ms) m h i = All-concat IsMember ms (h ms refl) i

  join_family-AreFamilies :
      (f r : Option Text) (x : Text) (families : Map Text (List FamilyMember))
      → includes known x ≡ true
      → AreFamilies families
      → AreFamilies (join_family f r x families)
  join_family-AreFamilies none r x families i a = a
  join_family-AreFamilies (some f) none x families i a = a
  join_family-AreFamilies (some f) (some r) x families i a = elim (Bool-cases (f == [])) [
    | inl blank ↦ rw blank a
    | inr named ↦ rw named (
        All-put (All IsMember) families f _ a
          (joined-IsMember (get families f) _ (λ ms e. All_get (All IsMember) families f ms a e) i))
  ]

  pub group_families-AreFamilies :
      (families : Map Text (List FamilyMember)) (subjects : List ClaimSubject)
      → All (λ s. includes known s.asset_id ≡ true) subjects
      → AreFamilies families
      → AreFamilies (group_families families subjects)
  unfolding group_families
  group_families-AreFamilies families [] _ a = a
  group_families-AreFamilies families (s ∷ subjects) (i, is) a =
      group_families-AreFamilies (join_family s.family_key s.role s.asset_id families) subjects is
        (join_family-AreFamilies s.family_key s.role s.asset_id families i a)

  module _ (source : ProfileSourceRef) (rules : Map Text ℕ) where
    nested-Sound :
        (parent child : FamilyMember) (o : Option ℕ) (a : Assembly)
        → Sound known a
        → IsPair known child.asset_id parent.asset_id
        → Sound known (nested source rules parent child o a)
    nested-Sound parent child none a s p = s
    nested-Sound parent child (some n) a s p =
        elim (Bool-cases (includes a.anchored_pairs (pair_key child.asset_id parent.asset_id))) [
          | inl taken ↦ rw taken s
          | inr free ↦ rw free (push-Sound known _ a s p)
        ]

    take_members-Sound :
        (parent child : FamilyMember) (a : Assembly)
        → IsMember parent
        → IsMember child
        → Sound known a
        → Sound known (take_members source rules parent child a)
    unfolding take_members
    take_members-Sound parent child a i j s =
        elim (Bool-cases (parent.asset_id == child.asset_id)) [
          | inl same ↦ rw same s
          | inr apart ↦ rw apart (
              nested-Sound parent child (get rules (pair_key parent.role child.role)) a s
                (j, i, λ e. ground (arith, text_beq_iff parent.asset_id child.asset_id)))
        ]

    take_children-Sound :
        (parent : FamilyMember) (children : List FamilyMember) (a : Assembly)
        → IsMember parent
        → All IsMember children
        → Sound known a
        → Sound known (take_children source rules parent children a)
    unfolding take_children
    take_children-Sound parent [] a i _ s = s
    take_children-Sound parent (child ∷ children) a i (j, js) s =
        take_children-Sound parent children (take_members source rules parent child a) i js
          (take_members-Sound parent child a i j s)

    take_parents-Sound :
        (parents ordered : List FamilyMember) (a : Assembly)
        → All IsMember parents
        → All IsMember ordered
        → Sound known a
        → Sound known (take_parents source rules parents ordered a)
    unfolding take_parents
    take_parents-Sound [] ordered a _ o s = s
    take_parents-Sound (parent ∷ parents) ordered a (i, is) o s =
        take_parents-Sound parents ordered (take_children source rules parent ordered a) is o
          (take_children-Sound parent ordered a i o s)

    pub take_families-Sound :
        (families : List (List FamilyMember)) (a : Assembly)
        → All (All IsMember) families
        → Sound known a
        → Sound known (take_families source rules families a)
    unfolding take_families
    take_families-Sound [] a _ s = s
    take_families-Sound (members ∷ families) a (m, ms) s =
        take_families-Sound families _ ms (
          take_parents-Sound _ _ a (All-sort _ IsMember members m) (All-sort _ IsMember members m)
            s)
