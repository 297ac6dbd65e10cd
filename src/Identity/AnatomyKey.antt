-- ===== src/Identity/AnatomyKey.antt =====
-- packages/identity/src/anatomy-key.ts: the decomposition of a tag as a key. `describeAnatomyKey`, which
-- words a key for a reviewer, is left out.
use matchline.Base.{
  ℕ, ◌+◌, Bool, true, false, ◌||◌, List, [], ◌∷◌, ◌++◌, Option, none, some, Text, text, decimal,
  digits, join_with, Map, get, any,
}
use matchline.Domain.Anatomy.{SegmentName, segment_eq, TagAnatomyConfig}
use matchline.Tags.Tokens.{segment_names, segment_text, tokenize}
use matchline.Tags.Anatomy.{AnatomyResult, matched, miss, apply_anatomy}

abbrev pub is_some {ℓ} : {A : Type ℓ} → Option A → Bool
is_some none = false
is_some (some x) = true

unfoldable pub anatomy_can_identify : TagAnatomyConfig → Bool
anatomy_can_identify config =
    any (λ name. is_some (config.segments name)) segment_names || is_some config.family_key_template

-- `tokens.forEach((token, position) => …)`, from a position on.
unfoldable pub token_parts : ℕ → List Text → List Text
unfolding digits
token_parts position [] = []
token_parts position (token ∷ tokens) =
    (text "token" ++ (decimal position ++ (text "=" ++ token))) ∷ token_parts (position + 1) tokens

abbrev segment_part : SegmentName → Option Text → List Text → List Text
segment_part name none parts = parts
segment_part name (some value) parts = (segment_text name ++ (text "=" ++ value)) ∷ parts

unfoldable pub segment_parts : List SegmentName → Map SegmentName Text → List Text
segment_parts [] segments = []
segment_parts (name ∷ names) segments =
    segment_part name (get segments name) (segment_parts names segments)

abbrev or_blank : Option Text → Text
or_blank none = []
or_blank (some s) = s

-- The family key, if the profile has a template for one.
abbrev family_part : Option Text → Option Text → List Text
family_part none family_key = []
family_part (some template) family_key = (text "familyKey=" ++ or_blank family_key) ∷ []

abbrev joined_parts : List Text → Option Text
joined_parts [] = none
joined_parts (part ∷ parts) = some (join_with (0 ∷ []) (part ∷ parts))

abbrev pub decomposition_key : TagAnatomyConfig → AnatomyResult → Option Text
decomposition_key config (miss reason) = none
decomposition_key config (matched result) = joined_parts (
    token_parts 0 (tokenize config.separators result.normalized_tag)
    ++ (segment_parts segment_names result.segments
        ++ family_part config.family_key_template result.family_key))

unfoldable pub anatomy_identity_key : TagAnatomyConfig → Text → Option Text
unfolding token_parts segment_parts
anatomy_identity_key config tag = decomposition_key config (apply_anatomy config tag)
