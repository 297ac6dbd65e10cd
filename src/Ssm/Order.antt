-- ===== src/Ssm/Order.antt =====
-- packages/ssm-compiler/src/order.ts: the comparators of every list that the compiler emits.
pub mod Laws
use matchline.Base.{
  ℕ, compare, Ordering, List, [], ◌∷◌, Option, none, some, if◌then◌else◌, ◌==◌, suc, Text, text,
  compare_text, then_by, length, Comparator,
}
use matchline.Domain.Claim.{
  SourceRef, model_object, sheet_row, Provenance, SsmRelationshipClaim, relationship_name,
}
use matchline.Domain.Ladder.{LadderSourceKind, ParentLadderConfig, source_name, source_eq}
use matchline.Domain.Snapshot.{ResolvedDependency}

-- Absent sorts before present.
unfoldable pub compare_optional {ℓ} : {A : Type ℓ} → Comparator A → Comparator (Option A)
compare_optional c none none = Ordering.eq
compare_optional c none (some y) = Ordering.lt
compare_optional c (some x) none = Ordering.gt
compare_optional c (some x) (some y) = c x y

unfoldable pub compare_source_ref : Comparator SourceRef
compare_source_ref (sheet_row sheet row) (sheet_row sheet' row') =
    then_by (compare_text sheet sheet') (compare row row')
compare_source_ref (model_object object_id) (model_object object_id') =
    compare_text object_id object_id'
compare_source_ref (model_object _) (sheet_row _ _) =
    compare_text (text "model-object") (text "sheet-row")
compare_source_ref (sheet_row _ _) (model_object _) =
    compare_text (text "sheet-row") (text "model-object")

-- The revisions are not compared.
unfoldable pub compare_provenance : Comparator Provenance
compare_provenance l r = then_by (compare_text l.source_file r.source_file) (
    then_by (compare_source_ref l.source_ref r.source_ref) (
      then_by (compare_optional compare_text l.property_or_column r.property_or_column) (
        then_by (compare_optional compare_text l.rule r.rule) (
          then_by (compare_optional compare_text l.manual_decision r.manual_decision)
            (compare_optional compare l.fallback_rung r.fallback_rung)))))

-- `tiers.indexOf(source)`
unfoldable pub index_of : List LadderSourceKind → LadderSourceKind → Option ℕ
index_of [] k = none
index_of (t ∷ ts) k =
    if t == k then some 0 else elim (index_of ts k) [ none ↦ none | some i ↦ some (suc i) ]

-- A rung's position in the configured ladder, or one past the end.
unfoldable pub tier_index : ParentLadderConfig → LadderSourceKind → ℕ
unfolding index_of
tier_index ladder source = elim (index_of ladder.tiers source) [
  | none ↦ length ladder.tiers
  | some index ↦ index
]

unfoldable pub compare_claims : ParentLadderConfig → Comparator SsmRelationshipClaim
compare_claims ladder l r = then_by (compare_text l.subject_asset_id r.subject_asset_id) (
    then_by (compare (tier_index ladder l.ladder_source) (tier_index ladder r.ladder_source)) (
      then_by (compare_text (source_name l.ladder_source) (source_name r.ladder_source)) (
        then_by (compare_text l.target_asset_id r.target_asset_id) (
          then_by
            (compare_text (relationship_name l.relationship_type)
              (relationship_name r.relationship_type))
            (then_by (compare_provenance l.provenance r.provenance)
              (compare_text l.rule r.rule))))))

unfoldable pub compare_dependencies : Comparator ResolvedDependency
compare_dependencies l r = then_by (compare_text l.parent_asset_id r.parent_asset_id) (
    then_by
      (compare_text (relationship_name l.relationship_type) (relationship_name r.relationship_type))
      (compare_provenance l.provenance r.provenance))
