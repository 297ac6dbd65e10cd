-- ===== src/Ssm/ReviewKey/Items.antt =====
-- packages/ssm-compiler/src/order.ts, `reviewKey` of the items that packages/ssm-compiler/src/compile.ts
-- raises.
use matchline.Base.{
  ◌≡◌, ◌↔◌, refl, ap, sym, ◌∙◌, List, [], ◌∷◌, Option, some, ◌==◌, find, arith, Text, text, text_eq,
  All,
}
use matchline.Domain.Ladder.{
  LadderSourceKind, source_name, ladder_source_order, manual, explicit_model, profile_lookup,
  flow_family, family_role, learned_description, prior_ssm, model_tree,
}
use matchline.Domain.Review.{ReviewItem}
use matchline.Ssm.ReviewKey.{field, field_list, compose_key, review_key, key_separator}
use matchline.Ssm.ReviewKey.Fields.{Lacks, field-Lacks, field-injective}
use matchline.Ssm.ReviewKey.Joined.{join-injective, field_list-Lacks, field_list-injective}

-- The items that a compile raises: the parents of a tie and the members of a cycle are not empty lists.
pub data IsRaised : ReviewItem → Type 0 where
  tied :
      (a : Text) (l : LadderSourceKind) (p : Text) (ps : List Text)
      → IsRaised (ReviewItem.ambiguous_parent a l (p ∷ ps))
  cyclic : (a : Text) (rest : List Text) → IsRaised (ReviewItem.structural_cycle (a ∷ rest))
  gap : (a l : Text) → IsRaised (ReviewItem.missing_boundary a l)

abbrev source_named : Text → Option LadderSourceKind
source_named s = find (λ l. source_name l == s) ladder_source_order

source_named-name : (l : LadderSourceKind) → source_named (source_name l) ≡ some l
source_named-name manual = refl
source_named-name explicit_model = refl
source_named-name profile_lookup = refl
source_named-name flow_family = refl
source_named-name family_role = refl
source_named-name learned_description = refl
source_named-name prior_ssm = refl
source_named-name model_tree = refl

source_name-injective : (l m : LadderSourceKind) → source_name l ≡ source_name m → l ≡ m
source_name-injective l m e = cc (source_named-name l, ap source_named e, source_named-name m)

-- The parts of a key.
abbrev parts : {i : ReviewItem} → IsRaised i → Text × List Text
parts (tied a l p ps) =
    (text "ambiguous-parent", field a ∷ field (source_name l) ∷ field_list (p ∷ ps) ∷ [])
parts (cyclic a rest) = (text "structural-cycle", field_list (a ∷ rest) ∷ [])
parts (gap a l) = (text "missing-boundary", field a ∷ field l ∷ [])

review_key-parts :
    {i : ReviewItem} (r : IsRaised i) → review_key i ≡ compose_key (parts r).0 (parts r).1
unfolding review_key
review_key-parts (tied a l p ps) = refl
review_key-parts (cyclic a rest) = refl
review_key-parts (gap a l) = refl

parts-Lacks :
    {i : ReviewItem} (r : IsRaised i) → All (Lacks key_separator) ((parts r).0 ∷ (parts r).1)
parts-Lacks (tied a l p ps) = (
  ground arith,
  ((field-Lacks a).0, ((field-Lacks (source_name l)).0, (field_list-Lacks (p ∷ ps), tt))),
)
parts-Lacks (cyclic a rest) = (ground arith, (field_list-Lacks (a ∷ rest), tt))
parts-Lacks (gap a l) = (ground arith, ((field-Lacks a).0, ((field-Lacks l).0, tt)))

parts-injective :
    {i j : ReviewItem} (r : IsRaised i) (s : IsRaised j)
    → (parts r).0 ≡ (parts s).0
    → (parts r).1 ≡ (parts s).1
    → i ≡ j
parts-injective (tied a l p ps) (tied b m q qs) k e = cc (
  field-injective a b cc,
  source_name-injective l m (field-injective (source_name l) (source_name m) cc),
  field_list-injective p q ps qs cc,
)
parts-injective (tied a l p ps) (cyclic b bs) k e = cc
parts-injective (tied a l p ps) (gap b m) k e = cc
parts-injective (cyclic a rest) (tied b m q qs) k e = cc
parts-injective (cyclic a rest) (cyclic b bs) k e = cc (field_list-injective a b rest bs cc)
parts-injective (cyclic a rest) (gap b m) k e = cc
parts-injective (gap a l) (tied b m q qs) k e = cc
parts-injective (gap a l) (cyclic b bs) k e = cc
parts-injective (gap a l) (gap b m) k e = cc (field-injective a b cc, field-injective l m cc)

raised-injective :
    {i j : ReviewItem} → IsRaised i → IsRaised j → review_key i ≡ review_key j → i ≡ j
unfolding compose_key
raised-injective r s e =
    let (f, g) =
      join-injective key_separator (parts r).0 (parts s).0 (parts r).1 (parts s).1 (parts-Lacks r)
        (parts-Lacks s) (sym (review_key-parts r) ∙ e ∙ review_key-parts s) in
    parts-injective r s f g

-- Two items, each a tie with parents, a cycle with members or a missing value, have the same key exactly if
-- they are the same item, whatever code units their strings have.
pub review_key-eq_iff :
    {i j : ReviewItem} → IsRaised i → IsRaised j → (review_key i ≡ review_key j) ↔ (i ≡ j)
review_key-eq_iff r s = (raised-injective r s, ap review_key)
