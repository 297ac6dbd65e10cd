-- ===== src/Ssm/Order/Laws.antt =====
-- packages/ssm-compiler/src/order.ts: laws of the comparators.
use matchline.Base.{
  ◌≡◌, refl, Ordering, Option, none, some, arith, Comparator, IsOrder, flip, then_by,
  then_by-IsOrder, on-IsOrder, compare, compare-IsTotalOrder, compare_text,
  compare_text-IsTotalOrder, Text, ℕ,
}
use matchline.Domain.Claim.{SourceRef, model_object, sheet_row, relationship_name}
use matchline.Domain.Ladder.{ParentLadderConfig, source_name}
use matchline.Ssm.Order.{
  compare_optional, compare_source_ref, compare_provenance, tier_index, compare_claims,
  compare_dependencies,
}

abbrev text_order : IsOrder compare_text
text_order = compare_text-IsTotalOrder.order

module _ {ℓ} {A : Type ℓ} {c : Comparator A} (o : IsOrder c) where
  optional-swap : (x y : Option A) → compare_optional c y x ≡ flip (compare_optional c x y)
  unfolding compare_optional
  optional-swap none none = refl
  optional-swap none (some y) = refl
  optional-swap (some x) none = refl
  optional-swap (some x) (some y) = o.swap x y

  optional_trans :
      (x y z : Option A)
      → compare_optional c x y ≡ Ordering.lt
      → compare_optional c y z ≡ Ordering.lt
      → compare_optional c x z ≡ Ordering.lt
  unfolding compare_optional
  optional_trans (some x) (some y) (some z) p q = o.trans x y z p q
  optional_trans none y (some z) p q = refl
  optional_trans x y z p q = ground arith

  optional-same :
      (x y z : Option A)
      → compare_optional c x y ≡ Ordering.eq
      → compare_optional c x z ≡ compare_optional c y z
  unfolding compare_optional
  optional-same (some x) (some y) (some z) p = o.same x y z p
  optional-same x y z p = ground arith

  compare_optional-IsOrder : IsOrder (compare_optional c)
  compare_optional-IsOrder = record {
    swap = optional-swap;
    trans = optional_trans;
    same = optional-same;
  }

source_ref-swap : (x y : SourceRef) → compare_source_ref y x ≡ flip (compare_source_ref x y)
unfolding compare_source_ref compare_text
source_ref-swap (model_object a) (model_object b) = text_order.swap a b
source_ref-swap (sheet_row s m) (sheet_row t n) =
    (then_by-IsOrder (on-IsOrder (λ (p : Text × ℕ). p.0) text_order)
        (on-IsOrder (λ (p : Text × ℕ). p.1) compare-IsTotalOrder.order)).swap
      (s, m) (t, n)
source_ref-swap (model_object a) (sheet_row t n) = refl
source_ref-swap (sheet_row s m) (model_object b) = refl

abbrev sheet_row_order :
    IsOrder (λ (p q : Text × ℕ). then_by (compare_text p.0 q.0) (compare p.1 q.1))
sheet_row_order =
    then_by-IsOrder (on-IsOrder (λ (p : Text × ℕ). p.0) text_order)
      (on-IsOrder (λ (p : Text × ℕ). p.1) compare-IsTotalOrder.order)

source_ref_trans :
    (x y z : SourceRef)
    → compare_source_ref x y ≡ Ordering.lt
    → compare_source_ref y z ≡ Ordering.lt
    → compare_source_ref x z ≡ Ordering.lt
unfolding compare_source_ref compare_text
source_ref_trans (model_object a) (model_object b) (model_object d) p q = text_order.trans a b d p q
source_ref_trans (sheet_row s m) (sheet_row t n) (sheet_row u o) p q =
    sheet_row_order.trans (s, m) (t, n) (u, o) p q
source_ref_trans (model_object a) y (sheet_row u o) p q = refl
source_ref_trans x y z p q = cc

source_ref-same :
    (x y z : SourceRef)
    → compare_source_ref x y ≡ Ordering.eq
    → compare_source_ref x z ≡ compare_source_ref y z
unfolding compare_source_ref compare_text
source_ref-same (model_object a) (model_object b) (model_object d) p = text_order.same a b d p
source_ref-same (sheet_row s m) (sheet_row t n) (sheet_row u o) p =
    sheet_row_order.same (s, m) (t, n) (u, o) p
source_ref-same (model_object a) (model_object b) z p = refl
source_ref-same (sheet_row s m) (sheet_row t n) z p = refl
source_ref-same x y z p = cc

compare_source_ref-IsOrder : IsOrder compare_source_ref
compare_source_ref-IsOrder = record {
  swap = source_ref-swap;
  trans = source_ref_trans;
  same = source_ref-same;
}

compare_provenance-IsOrder : IsOrder compare_provenance
unfolding compare_provenance
compare_provenance-IsOrder = then_by-IsOrder (on-IsOrder (λ p. p.source_file) text_order) (
    then_by-IsOrder (on-IsOrder (λ p. p.source_ref) compare_source_ref-IsOrder) (
      then_by-IsOrder (on-IsOrder (λ p. p.property_or_column) optional_text) (
        then_by-IsOrder (on-IsOrder (λ p. p.rule) optional_text) (
          then_by-IsOrder (on-IsOrder (λ p. p.manual_decision) optional_text) (
            on-IsOrder (λ p. p.fallback_rung)
              (compare_optional-IsOrder compare-IsTotalOrder.order))))))
  where
    optional_text : IsOrder (compare_optional compare_text)
    optional_text = compare_optional-IsOrder text_order

-- Whatever the ladder, claims are ordered by a total preorder: the comparator is antisymmetric in
-- sign, transitive, and compares equal claims with any third alike.
pub compare_claims-IsOrder : (ladder : ParentLadderConfig) → IsOrder (compare_claims ladder)
unfolding compare_claims
compare_claims-IsOrder ladder = then_by-IsOrder (on-IsOrder (λ c. c.subject_asset_id) text_order) (
    then_by-IsOrder (on-IsOrder (λ c. tier_index ladder c.ladder_source) compare-IsTotalOrder.order)
      (then_by-IsOrder (on-IsOrder (λ c. source_name c.ladder_source) text_order) (
        then_by-IsOrder (on-IsOrder (λ c. c.target_asset_id) text_order) (
          then_by-IsOrder (on-IsOrder (λ c. relationship_name c.relationship_type) text_order) (
            then_by-IsOrder (on-IsOrder (λ c. c.provenance) compare_provenance-IsOrder)
              (on-IsOrder (λ c. c.rule) text_order))))))

pub compare_dependencies-IsOrder : IsOrder compare_dependencies
unfolding compare_dependencies
compare_dependencies-IsOrder = then_by-IsOrder (on-IsOrder (λ d. d.parent_asset_id) text_order) (
    then_by-IsOrder (on-IsOrder (λ d. relationship_name d.relationship_type) text_order)
      (on-IsOrder (λ d. d.provenance) compare_provenance-IsOrder))
