-- ===== src/Domain/Connectivity.antt =====
-- packages/domain/src/connectivity.ts: what the sources say is connected.
use matchline.Base.{Option, Text, text}
use matchline.Domain.Claim.{Provenance, RelationshipType}

pub data EdgeKind : Type 0 where
  feed pmd_relation : EdgeKind

pub data ConnectivitySourceKind : Type 0 where
  easypower cable_schedule pmd : ConnectivitySourceKind

-- The strings of the unions.
abbrev pub edge_kind_text : EdgeKind → Text
edge_kind_text feed = text "feed"
edge_kind_text pmd_relation = text "pmd-relation"

abbrev pub source_kind_text : ConnectivitySourceKind → Text
source_kind_text easypower = text "easypower"
source_kind_text cable_schedule = text "cable-schedule"
source_kind_text pmd = text "pmd"

pub record ConnectivityObservation : Type 0 where
  pub kind : EdgeKind
  pub from_tag : Text
  pub to_tag : Text
  pub via : Option Text
  pub source_kind : ConnectivitySourceKind
  pub relationship_type : RelationshipType
  pub provenance : Provenance
