-- ===== src/Domain/Ladder.antt =====
-- packages/domain/src/hierarchy-config.ts: ladder rungs, hierarchy levels.
use matchline.Base.{ℕ, ◌≡◌, ◌↔◌, Bool, true, List, [], ◌∷◌, arith, Eq, nat_beq, Text, text}

pub data LadderSourceKind : Type 0 where
  manual explicit_model profile_lookup flow_family : LadderSourceKind
  family_role learned_description prior_ssm model_tree : LadderSourceKind

-- The string that the source writes for each member of the union.
abbrev pub source_name : LadderSourceKind → Text
source_name manual = text "manual"
source_name explicit_model = text "explicit-model"
source_name profile_lookup = text "profile-lookup"
source_name flow_family = text "flow-family"
source_name family_role = text "family-role"
source_name learned_description = text "learned-description"
source_name prior_ssm = text "prior-ssm"
source_name model_tree = text "model-tree"

-- LADDER_SOURCE_ORDER
abbrev pub ladder_source_order : List LadderSourceKind
ladder_source_order =
    manual ∷ explicit_model ∷ profile_lookup ∷ flow_family ∷ family_role ∷ learned_description
    ∷ prior_ssm ∷ model_tree ∷ []

abbrev source_number : LadderSourceKind → ℕ
source_number manual = 0
source_number explicit_model = 1
source_number profile_lookup = 2
source_number flow_family = 3
source_number family_role = 4
source_number learned_description = 5
source_number prior_ssm = 6
source_number model_tree = 7

-- `===` on the union.
abbrev pub source_beq : LadderSourceKind → LadderSourceKind → Bool
source_beq k l = nat_beq (source_number k) (source_number l)

pub source_beq_iff : (k l : LadderSourceKind) → (source_beq k l ≡ true) ↔ (k ≡ l)
source_beq_iff k l = ground arith

instance abbrev pub source_eq : Eq LadderSourceKind
source_eq = record { beq = source_beq; beq_iff = source_beq_iff }

pub record ParentLadderConfig : Type 0 where
  pub tiers : List LadderSourceKind

pub data MissingValuePolicy : Type 0 where
  unassigned_group review provisional_root : MissingValuePolicy

pub data LevelSort : Type 0 where
  label key : LevelSort

pub record HierarchyLevelConfig : Type 0 where
  pub level_id : Text
  pub display_name : Text
  pub attribute_key : Text
  pub boundary : Bool
  pub missing_value_policy : MissingValuePolicy
  pub sort : LevelSort

pub record HierarchyConfig : Type 0 where
  pub levels : List HierarchyLevelConfig
