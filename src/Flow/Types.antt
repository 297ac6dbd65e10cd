-- ===== src/Flow/Types.antt =====
-- packages/electrical-flow/src/types.ts.
use matchline.Base.{ℕ, List, Option, Text, Map}
use matchline.Domain.Claim.{Provenance, RelationshipType}
use matchline.Domain.Connectivity.{EdgeKind, ConnectivitySourceKind}
use matchline.Domain.Identity.{IdentityTier, IdentityOutcome}
use matchline.Domain.Review.{ReviewItem}

pub data FlowMatchStatus : Type 0 where
  model_confirmed flow_only pmd_only : FlowMatchStatus

pub record FlowEnrichment : Type 0 where
  pub description : Option Text
  pub equipment_type : Option Text
  pub building : Option Text
  pub native_discipline : Option Text
  pub system_key : Option Text
  pub system_label : Option Text
  pub source_model_file : Option Text

pub data FlowEdgeDirection : Type 0 where
  outgoing incoming : FlowEdgeDirection

pub record FlowEdgeRef : Type 0 where
  pub edge_id : Text
  pub node_id : Text
  pub direction : FlowEdgeDirection

pub record FlowNode : Type 0 where
  pub node_id : Text
  pub tag : Text
  pub evidence_tags : List Text
  pub match_status : FlowMatchStatus
  pub asset_id : Option Text
  pub identity_tier : Option IdentityTier
  pub enrichment : Option FlowEnrichment
  pub feeds : List FlowEdgeRef
  pub fed_by : List FlowEdgeRef
  pub pmd_relations : List FlowEdgeRef

pub record FlowEdge : Type 0 where
  pub edge_id : Text
  pub from_node_id : Text
  pub to_node_id : Text
  pub kind : EdgeKind
  pub relationship_type : RelationshipType
  pub via : Option Text
  pub source_kind : ConnectivitySourceKind
  pub provenance : Provenance

pub record SelfLoopAnomaly : Type 0 where
  pub node_id : Text
  pub from_tag : Text
  pub to_tag : Text
  pub edge_kind : EdgeKind
  pub source_kind : ConnectivitySourceKind
  pub provenance : Provenance

pub data FlowAnomaly : Type 0 where
  self_loop : SelfLoopAnomaly → FlowAnomaly
  cycle : (path : List Text) → FlowAnomaly

pub record FlowStats : Type 0 where
  pub node_count : ℕ
  pub edge_count : ℕ
  pub model_confirmed_count : ℕ
  pub flow_only_count : ℕ
  pub pmd_only_count : ℕ
  pub multi_feed_node_count : ℕ
  pub cycle_count : ℕ

pub record ElectricalFlow : Type 0 where
  pub nodes : Map Text FlowNode
  pub edges : List FlowEdge
  pub roots : List Text
  pub review_items : List ReviewItem
  pub flow_anomalies : List FlowAnomaly
  pub stats : FlowStats

-- Both forms of a lookup, a map and a function, are functions.
pub record FlowIdentity : Type 0 where
  pub outcomes : Text → Option IdentityOutcome
  pub review_items : List ReviewItem

pub record FlowVisit : Type 0 where
  pub node : FlowNode
  pub depth : ℕ
  pub via_edge_id : Option Text
  pub pmd_relations : List FlowEdgeRef
