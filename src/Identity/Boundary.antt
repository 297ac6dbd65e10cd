-- ===== src/Identity/Boundary.antt =====
-- packages/identity/src/boundary.ts: where a tag can be cut at a separator.
use matchline.Base.{
  not, ◌||◌, List, [], ◌∷◌, ◌++◌, if◌then◌else◌, leb, Text, text, text_eq, length, keep_if,
  starts_with, includes,
}
use matchline.Tags.Tokens.{is_used}

abbrev pub default_tag_separators : List Text
default_tag_separators = text "-" ∷ text "_" ∷ text "/" ∷ text "." ∷ text " " ∷ []

pub record BoundaryCut : Type 0 where
  pub prefix : Text
  pub separator : Text

-- `cuts` and `seen`.
pub record Cutting : Type 0 where
  pub cuts : List BoundaryCut
  pub seen : List Text

-- `${cut.prefix}\u0000${separator}`
abbrev pub cut_key : Text → Text → Text
cut_key prefix separator = prefix ++ 0 ∷ separator

-- The body of the inner loop; `rest` is the tag from the index on.
abbrev pub cut_at : Text → Text → Text → Cutting → Cutting
cut_at prefix rest separator s =
    if not (starts_with rest separator) || leb (length rest) (length separator)
    then s
    else if includes s.seen (cut_key prefix separator)
    then s
    else record {
      cuts = s.cuts ++ record { prefix = prefix; separator = separator } ∷ [];
      seen = s.seen ++ cut_key prefix separator ∷ [];
    }

unfoldable pub cut_by : Text → Text → List Text → Cutting → Cutting
cut_by prefix rest [] s = s
cut_by prefix rest (separator ∷ usable) s =
    cut_by prefix rest usable (cut_at prefix rest separator s)

-- The outer loop, from an index on.
unfoldable pub cuts_from : List Text → Text → Text → Cutting → Cutting
unfolding cut_by
cuts_from usable prefix [] s = s
cuts_from usable prefix (c ∷ rest) s =
    cuts_from usable (prefix ++ c ∷ []) rest (cut_by prefix (c ∷ rest) usable s)

abbrev pub cuts_of : Text → List Text → List BoundaryCut
cuts_of tag [] = []
cuts_of [] (u ∷ usable) = []
cuts_of (c ∷ rest) (u ∷ usable) =
    (cuts_from (u ∷ usable) (c ∷ []) rest (record { cuts = []; seen = [] })).cuts

unfoldable pub boundary_cuts : Text → List Text → List BoundaryCut
unfolding cuts_from
boundary_cuts tag separators = cuts_of tag (keep_if is_used separators)
