-- ===== src/Ssm/Ladder/Keys.antt =====
-- packages/ssm-compiler/src/compile.ts, `dependencyKey` and `baseDependencies`.
use matchline.Base.{
  ◌≡◌, refl, sym, ap, ◌∙◌, inl, inr, true, false, List, [], ◌∷◌, ◌++◌, Option, some, ◌==◌, arith,
  Text, text_eq, nat_eq, Map, get, has, put_new, values, text_beq_iff, put_of_new, includes,
  includes-append, find, sort, All, All-concat, Bool-cases,
}
use mathlib.Core.List.{Mem, mem-cons_self, mem-cons_of_mem}
use matchline.Ssm.Fold.{CompileSubject}
use matchline.Domain.Claim.{
  RelationshipType, relationship_name, powers, wired_to, controls, serves, explicit_parent,
  family_related, structural_parent_candidate, SsmRelationshipClaim,
}
use matchline.Domain.Snapshot.{ResolvedDependency}
use matchline.Ssm.Order.{compare_claims}
use matchline.Ssm.Ladder.{
  listed, dependency_key, collect_dependencies, base_dependencies, WalkContext,
}

-- A name has no NUL.
relationship_name-no_nul : (t : RelationshipType) → includes (relationship_name t) 0 ≡ false
relationship_name-no_nul powers = refl
relationship_name-no_nul wired_to = refl
relationship_name-no_nul controls = refl
relationship_name-no_nul serves = refl
relationship_name-no_nul explicit_parent = refl
relationship_name-no_nul family_related = refl
relationship_name-no_nul structural_parent_candidate = refl
relationship_name-no_nul RelationshipType.dependency = refl

abbrev type_named : Text → Option RelationshipType
type_named s =
    find (λ t. relationship_name t == s)
      (powers ∷ wired_to ∷ controls ∷ serves ∷ explicit_parent ∷ family_related
        ∷ structural_parent_candidate ∷ RelationshipType.dependency ∷ [])

type_named-name : (t : RelationshipType) → type_named (relationship_name t) ≡ some t
type_named-name powers = refl
type_named-name wired_to = refl
type_named-name controls = refl
type_named-name serves = refl
type_named-name explicit_parent = refl
type_named-name family_related = refl
type_named-name structural_parent_candidate = refl
type_named-name RelationshipType.dependency = refl

relationship_name-injective :
    (s t : RelationshipType) → relationship_name s ≡ relationship_name t → s ≡ t
relationship_name-injective s t e = cc (type_named-name s, ap type_named e, type_named-name t)

no_nul-append : (b s t : Text) → includes s 0 ≡ false → ¬ (s ≡ b ++ 0 ∷ t)
no_nul-append b s t m e = ground (arith, includes-append b (0 ∷ t) 0)

-- If nothing after it has a NUL, the NUL that joins two texts stands at one place only.
cut_at_nul :
    (a b s t : Text)
    → includes s 0 ≡ false
    → includes t 0 ≡ false
    → a ++ 0 ∷ s ≡ b ++ 0 ∷ t
    → (a ≡ b) × (s ≡ t)
cut_at_nul [] [] s t m n e = (refl, cc)
cut_at_nul [] (c ∷ b) s t m n e = absurd (no_nul-append b s t m cc)
cut_at_nul (c ∷ a) [] s t m n e = absurd (no_nul-append a t s n cc)
cut_at_nul (c ∷ a) (d ∷ b) s t m n e = let (f, g) = cut_at_nul a b s t m n cc in (cc, g)

-- A dependency's key tells both its parent and its type.
pub dependency_key-injective :
    (p q : Text) (s t : RelationshipType)
    → dependency_key p s ≡ dependency_key q t
    → (p ≡ q) × (s ≡ t)
dependency_key-injective p q s t e =
    let (f, g) =
      cut_at_nul p q (relationship_name s) (relationship_name t) (relationship_name-no_nul s)
        (relationship_name-no_nul t) e in
    (f, relationship_name-injective s t g)

-- Each dependency stands under its own key.
abbrev pub AreKeyed : Map Text ResolvedDependency → Type 0
AreKeyed = All (λ e. e.0 ≡ dependency_key e.1.parent_asset_id e.1.relationship_type)

pub put_new-AreKeyed :
    (m : Map Text ResolvedDependency) (k : Text) (d : ResolvedDependency)
    → AreKeyed m
    → k ≡ dependency_key d.parent_asset_id d.relationship_type
    → AreKeyed (put_new m k d)
put_new-AreKeyed m k d all e = elim (Bool-cases (has m k)) [
  | inl old ↦ rw old all
  | inr new ↦ rw (new, put_of_new m k d new) (All-concat _ m all e)
]

collect_dependencies-AreKeyed :
    (m : Map Text ResolvedDependency) (claims : List SsmRelationshipClaim)
    → AreKeyed m
    → AreKeyed (collect_dependencies m claims)
unfolding collect_dependencies
collect_dependencies-AreKeyed m [] all = all
collect_dependencies-AreKeyed m (c ∷ cs) all =
    collect_dependencies-AreKeyed
      (put_new m (dependency_key c.target_asset_id c.relationship_type) _) cs
      (put_new-AreKeyed m _ _ all refl)

pub base_dependencies-AreKeyed :
    (subject : CompileSubject) (ctx : WalkContext) → AreKeyed (base_dependencies subject ctx)
unfolding base_dependencies
base_dependencies-AreKeyed subject ctx =
    collect_dependencies-AreKeyed []
      (sort (compare_claims ctx.ladder) (listed (get ctx.dependencies_by_subject subject.asset_id)))
      tt

-- What stands under a dependency's key is that dependency, and it is one of the values.
pub value_of_key :
    (m : Map Text ResolvedDependency) (q : Text) (t : RelationshipType)
    → AreKeyed m
    → has m (dependency_key q t) ≡ true
    → (d : ResolvedDependency) × Mem d (values m)
      × (d.parent_asset_id ≡ q)
      × (d.relationship_type ≡ t)
value_of_key [] q t _ h = cc
value_of_key ((k, d) ∷ m) q t (e, all) h = elim (Bool-cases (k == dependency_key q t)) [
  | inl here ↦
      let (f, g) =
        dependency_key-injective d.parent_asset_id q d.relationship_type t
          (sym e ∙ (text_beq_iff k (dependency_key q t)).0 here) in
      (d, mem-cons_self, f, g)
  | inr there ↦
      let (x, i, f, g) = value_of_key m q t all (rw there at h) in (x, mem-cons_of_mem _ i, f, g)
]
