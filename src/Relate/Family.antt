-- ===== src/Relate/Family.antt =====
-- packages/relationship-claims/src/assemble.ts, `assembleRelationshipClaims`: tier 4 (connectivity) and
-- tier 5 (family and role).
use matchline.Base.{
  ℕ, Bool, false, not, ◌&&◌, List, [], ◌∷◌, ◌++◌, Option, none, some, if◌then◌else◌, ◌==◌, Text,
  text, text_eq, compare_text, Map, get, put, keys, includes, add, sort,
}
use matchline.Domain.Ladder.{flow_family, family_role}
use matchline.Relate.Mapping.{ladder_rung}
use matchline.Relate.Types.{ClaimSubject, FlowEdgeInput, ProfileSourceRef}
use matchline.Relate.Assemble.{
  Assembly, push, pair_fault, checked, pair_key, profile_provenance, structural_claim,
  dependency_claim, role_graph_table,
}

-- `${parent.role}>${child.role}`
abbrev pub role_rule_text : Text → Text → Text
role_rule_text parent_role child_role = parent_role ++ text ">" ++ child_role

-- `family !== undefined && family !== '' && family === child.familyKey`
abbrev pub same_family : Option Text → Option Text → Bool
same_family none child_family = false
same_family (some family) none = false
same_family (some family) (some child_family) = not (family == []) && family == child_family

-- The taught rule for two roles, if both are known.
abbrev pub rule_for : Map Text ℕ → Option Text → Option Text → Option (ℕ × Text × Text)
rule_for role_rules none child_role = none
rule_for role_rules (some parent_role) none = none
rule_for role_rules (some parent_role) (some child_role) =
    elim (get role_rules (pair_key parent_role child_role)) [
      | none ↦ none
      | some position ↦ some (position, parent_role, child_role)
    ]

-- A flow edge within a family whose roles are taught.
abbrev pub anchor :
    FlowEdgeInput → ClaimSubject → ClaimSubject → Option (ℕ × Text × Text) → Assembly → Assembly
anchor edge parent child none a = a
anchor edge parent child (some (position, parent_role, child_role)) a =
    push
      (structural_claim flow_family child.asset_id parent.asset_id (record edge.provenance {
        rule = some (role_rule_text parent_role child_role);
        fallback_rung = some (ladder_rung flow_family);
      }))
      (record a { anchored_pairs = add a.anchored_pairs (pair_key child.asset_id parent.asset_id) })

abbrev pub anchored :
    Map Text ℕ → FlowEdgeInput → Option ClaimSubject → Option ClaimSubject → Assembly → Assembly
anchored role_rules edge none child a = a
anchored role_rules edge (some parent) none a = a
anchored role_rules edge (some parent) (some child) a =
    if same_family parent.family_key child.family_key
    then anchor edge parent child (rule_for role_rules parent.role child.role) a
    else a

abbrev pub depend : FlowEdgeInput → Assembly → Assembly
depend edge a = record a {
  dependencies =
      a.dependencies
      ++ dependency_claim edge.to_asset_id edge.from_asset_id edge.relationship_type edge.provenance
        ∷ [];
}

module _ (subject_by_id : Map Text ClaimSubject) (role_rules : Map Text ℕ) where
  -- Tier 4.
  unfoldable pub take_edge : ℕ → FlowEdgeInput → Assembly → Assembly
  take_edge position edge a =
      checked (pair_fault (keys subject_by_id) edge.to_asset_id edge.from_asset_id) flow_family
        edge.to_asset_id edge.from_asset_id
        (anchored role_rules edge (get subject_by_id edge.from_asset_id)
          (get subject_by_id edge.to_asset_id) (depend edge a))
        a

pub record FamilyMember : Type 0 where
  pub asset_id : Text
  pub role : Text

abbrev pub joined : Option (List FamilyMember) → FamilyMember → List FamilyMember
joined none member = member ∷ []
joined (some members) member = members ++ member ∷ []

abbrev pub join_family :
    Option Text → Option Text → Text → Map Text (List FamilyMember) → Map Text (List FamilyMember)
join_family none role asset_id families = families
join_family (some family) none asset_id families = families
join_family (some family) (some role) asset_id families =
    if family == []
    then families
    else put families family
        (joined (get families family) (record { asset_id = asset_id; role = role }))

-- The loop that fills `families`.
unfoldable pub group_families :
    Map Text (List FamilyMember) → List ClaimSubject → Map Text (List FamilyMember)
group_families families [] = families
group_families families (subject ∷ subjects) =
    group_families (join_family subject.family_key subject.role subject.asset_id families) subjects

module _ (profile_source : ProfileSourceRef) (role_rules : Map Text ℕ) where
  abbrev pub nested : FamilyMember → FamilyMember → Option ℕ → Assembly → Assembly
  nested parent child none a = a
  nested parent child (some rule_position) a =
      if includes a.anchored_pairs (pair_key child.asset_id parent.asset_id)
      then a
      else push
          (structural_claim family_role child.asset_id parent.asset_id (
            profile_provenance profile_source role_graph_table rule_position
              (role_rule_text parent.role child.role) (ladder_rung family_role) none))
          a

  -- The body of the two loops over the members of a family.
  unfoldable pub take_members : FamilyMember → FamilyMember → Assembly → Assembly
  take_members parent child a =
      if parent.asset_id == child.asset_id
      then a
      else nested parent child (get role_rules (pair_key parent.role child.role)) a

  unfoldable pub take_children : FamilyMember → List FamilyMember → Assembly → Assembly
  take_children parent [] a = a
  take_children parent (child ∷ children) a =
      take_children parent children (take_members parent child a)

  unfoldable pub take_parents : List FamilyMember → List FamilyMember → Assembly → Assembly
  take_parents [] ordered a = a
  take_parents (parent ∷ parents) ordered a =
      take_parents parents ordered (take_children parent ordered a)

  abbrev pub in_order : List FamilyMember → List FamilyMember
  in_order members = sort (λ l r. compare_text l.asset_id r.asset_id) members

  -- Tier 5: every family in turn.
  unfoldable pub take_families : List (List FamilyMember) → Assembly → Assembly
  take_families [] a = a
  take_families (members ∷ families) a =
      take_families families (take_parents (in_order members) (in_order members) a)
