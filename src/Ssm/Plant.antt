-- ===== src/Ssm/Plant.antt =====
-- A small plant for packages/ssm-compiler: the assets and claims that the tests run on.
use matchline.Base.{true, List, [], ◌∷◌, none, Text, text}
use matchline.Domain.Ladder.{
  LadderSourceKind, manual, explicit_model, profile_lookup, review, unassigned_group,
  HierarchyLevelConfig, HierarchyConfig, label,
}
use matchline.Domain.Claim.{SsmRelationshipClaim, structural_parent, model_object}
use matchline.Relate.Mapping.{evidence_tier_of, kind_of, relationship_type_of, rule_of}
use matchline.Ssm.Fold.{CompileSubject}
use matchline.Ssm.Ladder.{default_ladder, WalkContext}
use matchline.Ssm.Snapshot.{CompileInput}

abbrev pub building : HierarchyLevelConfig
building = record {
  level_id = text "building";
  display_name = text "Building";
  attribute_key = text "building";
  boundary = true;
  missing_value_policy = unassigned_group;
  sort = label;
}

abbrev pub system : HierarchyLevelConfig
system = record {
  level_id = text "system";
  display_name = text "System";
  attribute_key = text "system";
  boundary = true;
  missing_value_policy = review;
  sort = label;
}

abbrev pub plant_levels : HierarchyConfig
plant_levels = record { levels = building ∷ system ∷ [] }

abbrev pub placed_in : Text → Text → CompileSubject
placed_in asset_id system_key = record {
  asset_id = asset_id;
  attributes = (text "building", text "B1") ∷ (text "system", system_key) ∷ [];
  model_tree_parent_id = none;
}

-- Panel and remote I/O of one system, a pump of another, and a valve that states no system.
abbrev pub panel : CompileSubject
panel = placed_in (text "PNL") (text "603")

abbrev pub remote_io : CompileSubject
remote_io = placed_in (text "RIO") (text "603")

abbrev pub pump : CompileSubject
pump = placed_in (text "PMP") (text "604")

abbrev pub valve : CompileSubject
valve = placed_in (text "VLV") []

abbrev pub claimed : LadderSourceKind → Text → Text → SsmRelationshipClaim
claimed source child parent = record {
  subject_asset_id = child;
  target_asset_id = parent;
  kind = structural_parent;
  relationship_type = relationship_type_of source;
  source = kind_of source;
  rule = rule_of source;
  evidence_tier = evidence_tier_of source;
  ladder_source = source;
  provenance = record {
    source_file = text "model";
    source_ref = model_object child;
    property_or_column = none;
    rule = none;
    fallback_rung = none;
    manual_decision = none;
    input_revision = none;
    profile_revision = none;
  };
}

abbrev pub plant : List SsmRelationshipClaim → WalkContext
plant claims = record {
  subject_by_id =
      (text "PNL", panel) ∷ (text "PMP", pump) ∷ (text "RIO", remote_io) ∷ (text "VLV", valve) ∷ [];
  ladder = default_ladder;
  hierarchy = plant_levels;
  structural_by_subject = (text "RIO", claims) ∷ (text "VLV", claims) ∷ [];
  dependencies_by_subject = [];
  make_root_ids = text "PMP" ∷ [];
}

-- The remote I/O: the model puts it under the pump, the profile under its own panel.
abbrev pub two_rungs : WalkContext
two_rungs = plant (
    claimed profile_lookup (text "RIO") (text "PNL")
    ∷ claimed explicit_model (text "RIO") (text "PMP")
    ∷ [])

-- One rung names two parents.
abbrev pub one_rung : WalkContext
one_rung = plant (
    claimed explicit_model (text "RIO") (text "PNL")
    ∷ claimed explicit_model (text "RIO") (text "PMP")
    ∷ [])

abbrev pub valve_rung : WalkContext
valve_rung = plant (claimed explicit_model (text "VLV") (text "PNL") ∷ [])

-- Three assets of one system: two name each other as parents, the third hangs on one of them. A second
-- asset of a taken id is ignored.
abbrev pub looped : CompileInput
looped = record {
  subjects = remote_io ∷ panel ∷ pump ∷ pump ∷ placed_in (text "BRK") (text "603") ∷ [];
  claims = record {
    structural =
        claimed explicit_model (text "RIO") (text "PNL")
        ∷ claimed explicit_model (text "PNL") (text "RIO")
        ∷ claimed explicit_model (text "BRK") (text "PNL")
        ∷ [];
    dependencies = [];
    make_root =
        record {
          child_asset_id = text "PMP";
          provenance = (claimed manual (text "PMP") (text "PMP")).provenance;
          note = none;
        }
        ∷ [];
  };
  ladder = none;
  hierarchy = plant_levels;
}
