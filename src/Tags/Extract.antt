-- ===== src/Tags/Extract.antt =====
-- packages/tag-anatomy/src/extract.ts: one segment of a tokenized tag. The detail of a failure, a
-- message for the setup wizard, is left out.
use matchline.Base.{
  ℕ, ◌+◌, List, [], ◌∷◌, Option, none, some, if◌then◌else◌, ltb, leb, Text, length, get_elem?,
  slice_range, join_with,
}
use matchline.Domain.Anatomy.{
  SegmentExtractor, alpha_prefix, digit_suffix, whole_token, token_range, char_range,
}
use matchline.Tags.Tokens.{alpha_prefix_of, digit_suffix_of}

abbrev pub nonempty : Text → Option Text
nonempty [] = none
nonempty (c ∷ s) = some (c ∷ s)

abbrev pub chars_of : ℕ → ℕ → Text → Option Text
chars_of from to token =
    if leb to from
    then none
    else if ltb (length token) to
    then none
    else some (slice_range from to token)

unfoldable pub extract_segment : SegmentExtractor → List Text → Text → Option Text
unfolding alpha_prefix_of digit_suffix_of
extract_segment (alpha_prefix n) tokens join = elim (get_elem? tokens n) [
  | none ↦ none
  | some token ↦ nonempty (alpha_prefix_of token)
]
extract_segment (digit_suffix n) tokens join = elim (get_elem? tokens n) [
  | none ↦ none
  | some token ↦ nonempty (digit_suffix_of token)
]
extract_segment (whole_token n) tokens join = get_elem? tokens n
extract_segment (token_range from to) tokens join =
    if ltb to from
    then none
    else if leb (length tokens) to
    then none
    else some (join_with join (slice_range from (to + 1) tokens))
extract_segment (char_range n from to) tokens join = elim (get_elem? tokens n) [
  | none ↦ none
  | some token ↦ chars_of from to token
]
