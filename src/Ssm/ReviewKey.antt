-- ===== src/Ssm/ReviewKey.antt =====
-- packages/ssm-compiler/src/order.ts: the key of a review item, by which the items are sorted and
-- told apart.
mod Fields
mod Joined
pub mod Items
mod Tests
use matchline.Base.{
  decimal, ℕ, zero, suc, ◌+◌, Bool, true, false, List, [], ◌∷◌, ◌++◌, map, if◌then◌else◌, nat_beq,
  ltb, Text, text, compare_text, sort, Comparator,
}
use matchline.Domain.Ladder.{source_name}
use matchline.Domain.Review.{
  AttributeValue, string, number, boolean, null, FuzzyIdentityCandidate, AttributeClaim, ReviewItem,
}

abbrev pub key_separator : ℕ
key_separator = 0x241f

-- The code unit of `,`.
abbrev pub list_separator : ℕ
list_separator = 44

abbrev percent : ℕ
percent = 37

-- `s.replaceAll(c, replacement)` for a string `c` of one code unit.
unfoldable pub replace_all : Text → ℕ → Text → Text
replace_all [] c replacement = []
replace_all (d ∷ s) c replacement =
    if nat_beq d c
    then replacement ++ replace_all s c replacement
    else d ∷ replace_all s c replacement

-- `xs.join(c)` for a separator of one code unit.
unfoldable pub join : ℕ → List Text → Text
join c [] = []
join c (x ∷ []) = x
join c (x ∷ y ∷ xs) = x ++ c ∷ join c (y ∷ xs)

unfoldable pub field : Text → Text
unfolding replace_all
field value =
    replace_all (replace_all (replace_all value percent (text "%25")) key_separator (text "%1F"))
      list_separator (text "%2C")

unfoldable pub field_list : List Text → Text
unfolding field join
field_list values = join list_separator (map field values)

abbrev boolean_text : Bool → Text
boolean_text true = text "true"
boolean_text false = text "false"

-- `${typeof value}:${String(value)}`
unfoldable pub value_field : AttributeValue → Text
value_field null = field (text "null")
value_field (string s) = field (text "string:" ++ s)
value_field (number s) = field (text "number:" ++ s)
value_field (boolean b) = field (text "boolean:" ++ boolean_text b)

unfoldable pub number_list : List ℕ → Text
number_list values = join list_separator (map decimal values)

unfoldable pub compose_key : Text → List Text → Text
compose_key kind fields = join key_separator (kind ∷ fields)

-- `${field(candidate.assetId)}:${String(candidate.distance)}`
abbrev candidate_field : FuzzyIdentityCandidate → Text
candidate_field candidate = field candidate.asset_id ++ text ":" ++ decimal candidate.distance

unfoldable pub review_key : ReviewItem → Text
review_key (ReviewItem.system_conflict asset_id claims) = compose_key (text "system-conflict") (
    field asset_id
    ∷ join list_separator
        (sort compare_text (map (λ (c : AttributeClaim). value_field c.proposed_value) claims))
    ∷ [])
review_key (ReviewItem.duplicate_model_tag canonical_tag object_ids) =
    compose_key (text "duplicate-model-tag") (field canonical_tag ∷ number_list object_ids ∷ [])
review_key (ReviewItem.system_catalog_conflict system_key descriptions) =
    compose_key (text "system-catalog-conflict") (field system_key ∷ field_list descriptions ∷ [])
review_key (ReviewItem.fuzzy_identity evidence_tag candidates) =
    compose_key (text "fuzzy-identity")
      (field evidence_tag ∷ join list_separator (map candidate_field candidates) ∷ [])
review_key (ReviewItem.ambiguous_suffix evidence_tag candidate_asset_ids) =
    compose_key (text "ambiguous-suffix") (field evidence_tag ∷ field_list candidate_asset_ids ∷ [])
review_key (ReviewItem.ambiguous_parent asset_id ladder_source candidate_parent_ids) =
    compose_key (text "ambiguous-parent")
      (field asset_id ∷ field (source_name ladder_source) ∷ field_list candidate_parent_ids ∷ [])
review_key (ReviewItem.structural_cycle asset_ids) =
    compose_key (text "structural-cycle") (field_list asset_ids ∷ [])
review_key (ReviewItem.missing_boundary asset_id level_id) =
    compose_key (text "missing-boundary") (field asset_id ∷ field level_id ∷ [])
review_key (ReviewItem.nesting_proposal asset_id proposed_parent_id rule_detail confidence) =
    compose_key (text "nesting-proposal")
      (field asset_id ∷ field proposed_parent_id ∷ field rule_detail ∷ confidence ∷ [])
review_key (ReviewItem.dead_claim_rule ladder_source reason child_ref parent_ref) =
    compose_key (text "dead-claim-rule")
      (field ladder_source ∷ field reason ∷ field child_ref ∷ field parent_ref ∷ [])
review_key (ReviewItem.unresolvable_alias evidence_tag alias_target) =
    compose_key (text "unresolvable-alias") (field evidence_tag ∷ field alias_target ∷ [])
review_key (ReviewItem.absorbed_tagged_component absorbed_tag absorbing_asset_id object_id) =
    compose_key (text "absorbed-tagged-component")
      (field absorbed_tag ∷ field absorbing_asset_id ∷ decimal object_id ∷ [])

unfoldable pub compare_review_items : Comparator ReviewItem
compare_review_items left right = compare_text (review_key left) (review_key right)
