-- ===== src/Ssm/ReviewKey/Tests.antt =====
-- packages/ssm-compiler/src/order.ts: keys of review items whose strings contain the separators.
use matchline.Base.{◌≡◌, ◌↔◌, refl, text}
use matchline.Domain.Review.{ReviewItem, missing_boundary}
use matchline.Ssm.ReviewKey.{field, replace_all, review_key}
use matchline.Ssm.ReviewKey.Items.{gap, review_key-eq_iff}

-- Where the boundary between the two fields falls differs.
abbrev early : ReviewItem
early = missing_boundary (text "P") (text "1␟area")

abbrev late : ReviewItem
late = missing_boundary (text "P␟1") (text "area")

review_key-eq_iff_example : (review_key early ≡ review_key late) ↔ (early ≡ late)
review_key-eq_iff_example =
    review_key-eq_iff (gap (text "P") (text "1␟area")) (gap (text "P␟1") (text "area"))

field-escapes : field (text "a%1F,␟") ≡ text "a%251F%2C%1F"
unfolding field replace_all
field-escapes = refl
